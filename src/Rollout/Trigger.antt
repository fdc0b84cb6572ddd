-- ===== src/Rollout/Trigger.antt =====
-- CheckUpdate of statefulset_rollout_controller.go, and the predicates of the rollout controller's
-- watch, which let update events through by it and no other events.
use quarks_statefulset.Prelude.{
  String, Bool, true, false, not, ◌&&◌, ◌||◌, Option, none, some, eqb_ℤ, get, ◌==◌, if◌then◌else◌,
}
use quarks_statefulset.Names.Annotation
use quarks_statefulset.Names.State
use quarks_statefulset.Kube.Types.{StatefulSet}

abbrev pub same_counts : StatefulSet → StatefulSet → Bool
same_counts old new =
    eqb_ℤ old.status.ready_replicas new.status.ready_replicas
    && eqb_ℤ old.status.updated_replicas new.status.updated_replicas
    && eqb_ℤ old.status.replicas new.status.replicas

unfoldable pub check_state : Option String → StatefulSet → StatefulSet → Bool
check_state none old new = false
check_state (some state) old new =
    if state == State.done || (state == State.failed)
    then false
    else if state == State.pending
    then true
    else not (same_counts old new)

-- The old and the new object of an update event.
unfoldable pub check_update : StatefulSet → StatefulSet → Bool
unfolding check_state
check_update old new = check_state (get new.meta.annotations Annotation.canary_rollout) old new

pub data Event : Type 0 where
  created deleted generic : StatefulSet → Event
  updated : StatefulSet → StatefulSet → Event

-- The predicates that AddStatefulSetRollout gives its watch.
unfoldable pub admits : Event → Bool
unfolding check_update
admits (created s) = false
admits (deleted s) = false
admits (generic s) = false
admits (updated old new) = check_update old new
