-- ===== src/Rollout/Faults.antt =====
-- Two ways in which the rollout reconciler leaves its domain.
use quarks_statefulset.Prelude.{
  true, false, none, some, ◌∷◌, ℤ, pos, get, index, ◌≡◌, refl, ok, panic, ltb_ℤ,
}
use quarks_statefulset.Names.Annotation
use quarks_statefulset.Names.State
use quarks_statefulset.Kube.Types.{Key, StatefulSet}
use quarks_statefulset.Kube.Calls.{Call, History, ◌>>=◌}
use quarks_statefulset.Kube.Env.{Env}
use quarks_statefulset.Kube.Client.{get_statefulset, read_clock}
use quarks_statefulset.Rollout.Timeout.{minus_one}
use quarks_statefulset.Rollout.Pods.{partition_of, partition_pod_is_ready_and_updated}
use quarks_statefulset.Rollout.Update.Writes.{HasPartition}
use quarks_statefulset.Rollout.Reconcile.{
  Config, Decision, switch, pending_case, rollout_case, proceed, reconcile, reconcile_read,
  move_partition,
}
use quarks_statefulset.Rollout.Completion.{get_time_out-unwatched, fail_if_timed_out-unwatched}

-- A pending rollout whose StatefulSet has as many replicas as it wants and the partition 0, with no
-- canary watch time, is moved to the partition -1, to be written.
pub pending-underflow :
    (env : Env) (d : Decision) (replicas : ℤ) (h : History)
    → HasPartition d.statefulset (pos 0)
    → d.statefulset.spec.replicas ≡ some replicas
    → ltb_ℤ d.statefulset.status.replicas replicas ≡ false
    → get d.statefulset.meta.annotations Annotation.canary_watch_time ≡ none
    → (e : Decision) × (switch env State.pending d h ≡ (ok e, h))
      × HasPartition e.statefulset minus_one
      × (e.new_status ≡ State.canary)
      × (e.dirty ≡ true)
unfolding switch pending_case partition_of ◌>>=◌
pending-underflow env d replicas h at wanted enough unwatched = (
  record d {
    statefulset = move_partition d.statefulset (pos 0);
    new_status = State.canary;
    dirty = true;
    result = record d.result { requeue_after = pos 0 };
  },
  simp (
    wanted,
    enough,
    get_time_out-unwatched env d.statefulset Annotation.canary_watch_time h unwatched,
    at,
  ),
  refl,
  refl,
  refl,
)

-- A StatefulSet with no partition in the state Rollout makes Reconcile panic, though it notes the
-- missing partition before (outside a meltdown, with no update watch time).
pub nil_partition-panic :
    (env : Env) (config : Config) (key : Key) (h : History) (s : StatefulSet)
    → env.statefulset_at h key ≡ ok s
    → env.in_annotation_window config.meltdown_duration s.meta.annotations
        (env.clock (Call.get_statefulset key ∷ h))
      ≡ false
    → index s.meta.annotations Annotation.canary_rollout ≡ State.rollout
    → get s.meta.annotations Annotation.update_watch_time ≡ none
    → s.spec.update_strategy.rolling_update ≡ some none
    → (reconcile env config key h).0 ≡ panic
unfolding reconcile reconcile_read proceed switch rollout_case partition_pod_is_ready_and_updated
    get_statefulset read_clock ◌>>=◌
nil_partition-panic env config key h s answer awake state unwatched missing =
    let start = Call.read_clock ∷ Call.get_statefulset key ∷ h in
    simp (
      answer,
      awake,
      state,
      fail_if_timed_out-unwatched env s start unwatched,
      get_time_out-unwatched env s Annotation.update_watch_time start unwatched,
      missing,
    )
