-- ===== src/Rollout/Update.antt =====
-- Writing a StatefulSet back: updateStatefulSet, updateWithPartitionMove and failIfTimedOut of
-- statefulset_rollout_reconciler.go.
pub mod Writes
use quarks_statefulset.Prelude.{
  String, Bool, true, false, Option, none, some, ℤ, pos, ltb_ℤ, eqb_ℤ, index, put, deref, Outcome,
  ok, err, panic, Error, wrapped, map_outcome, StringMap, if◌then◌else◌,
}
use quarks_statefulset.Names.Annotation
use quarks_statefulset.Names.State
use quarks_statefulset.Kube.Types.{StatefulSet}
use quarks_statefulset.Kube.Calls.{Exec, pure, fail, lift, rescue, ◌>>=◌}
use quarks_statefulset.Kube.Env.{Env}
use quarks_statefulset.Kube.Client.{read_clock, create_or_update}
use quarks_statefulset.Rollout.Timeout.{get_time_out}
use quarks_statefulset.Rollout.Pods.{partition_of, cleanup_non_ready_pod}

abbrev pub with_annotations : StatefulSet → StringMap → StatefulSet
with_annotations s annotations = record s { meta = record s.meta { annotations = annotations } }

abbrev pub with_partition : StatefulSet → ℤ → StatefulSet
with_partition s partition = record s {
  spec = record s.spec {
    update_strategy = record s.spec.update_strategy { rolling_update = some (some partition) };
  };
}

-- `s.Annotations[AnnotationCanaryRollout] = state`
unfoldable pub set_state : String → StatefulSet → Outcome StatefulSet
set_state state s =
    map_outcome (with_annotations s) (put Annotation.canary_rollout state s.meta.annotations)

abbrev set_partition_and_state : ℤ → String → StatefulSet → Option (Option ℤ) → Outcome StatefulSet
set_partition_and_state partition state s none = panic
set_partition_and_state partition state s (some old) = set_state state (with_partition s partition)

-- The function that CreateOrUpdate applies to the object that it has loaded.
unfoldable pub mutation : ℤ → String → StatefulSet → Outcome StatefulSet
unfolding set_state
mutation partition state s =
    set_partition_and_state partition state s s.spec.update_strategy.rolling_update

module _ (env : Env) where
  explain : Error → Exec StatefulSet
  explain e =
      if env.is_conflict e then fail (wrapped "Conflict while updating stateful set" e) else fail e

  -- The object that the pointer holds after the call comes back.
  unfoldable pub update_statefulset : StatefulSet → Exec StatefulSet
  unfolding explain
  update_statefulset s = do
    now ← read_clock env
    let meta = env.set_last_reconcile s.meta now
    partition ← partition_of s
    let state = index meta.annotations Annotation.canary_rollout
    rescue (create_or_update env (record s { meta = meta }) (mutation partition state)) explain

  unfoldable pub update_with_partition_move : StatefulSet → ℤ → Exec (Unit {0})
  update_with_partition_move s old_partition = do
    updated ← update_statefulset s
    partition ← partition_of updated
    if eqb_ℤ old_partition partition then pure tt else cleanup_non_ready_pod env updated partition

  mark_failed : StatefulSet → Exec Bool
  mark_failed s = do
    failed ← lift (set_state State.failed s)
    updated ← update_statefulset failed
    pure true

  unfoldable pub fail_if_timed_out : StatefulSet → String → Exec Bool
  unfolding mark_failed
  fail_if_timed_out s timeout = do
    left ← get_time_out env s timeout
    if ltb_ℤ left (pos 0) then mark_failed s else pure false
