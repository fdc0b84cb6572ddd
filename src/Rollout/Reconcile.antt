-- ===== src/Rollout/Reconcile.antt =====
-- ReconcileStatefulSetRollout.Reconcile of statefulset_rollout_reconciler.go.
pub mod Diagram
pub mod Steps
pub mod Writes
pub mod Chains
use quarks_statefulset.Prelude.{
  String, Bool, true, false, not, ◌&&◌, ◌||◌, Option, none, some, ℤ, pos, ltb_ℤ, eqb_ℤ, dec32,
  index, deref, ◌==◌, if◌then◌else◌,
}
use quarks_statefulset.Names.Annotation
use quarks_statefulset.Names.State
use quarks_statefulset.Kube.Types.{Key, StatefulSet, Result}
use quarks_statefulset.Kube.Calls.{Exec, pure, lift, ◌>>=◌, ◌>>◌}
use quarks_statefulset.Kube.Env.{Env}
use quarks_statefulset.Kube.Client.{get_statefulset, read_clock}
use quarks_statefulset.Rollout.Timeout.{get_time_out, minus_one}
use quarks_statefulset.Rollout.Pods.{partition_of, partition_pod_is_ready_and_updated}
use quarks_statefulset.Rollout.Update.{
  with_partition, set_state, update_with_partition_move, fail_if_timed_out,
}

-- config.Config, as far as this controller reads it.
pub record Config : Type 0 where
  pub meltdown_duration : ℤ
  pub meltdown_requeue_after : ℤ

-- The local variables that the switch of Reconcile sets.
pub record Decision : Type 0 where
  pub statefulset : StatefulSet
  pub new_status : String
  pub dirty : Bool
  pub result : Result

abbrev pub no_result : Result
no_result = record { requeue = false; requeue_after = pos 0 }

abbrev pub minute : ℤ
minute = pos 60000000000

-- `(*partition)--`
abbrev pub move_partition : StatefulSet → ℤ → StatefulSet
move_partition s partition = with_partition s (dec32 partition)

unfoldable pub decide_upscaled : Decision → ℤ → Decision
decide_upscaled d partition =
    if eqb_ℤ partition (pos 0) then record d { new_status = State.done } else record d {
      statefulset = move_partition d.statefulset partition;
      new_status = State.rollout;
    }

unfoldable pub when_scaled : Bool → Decision → Exec Decision
unfolding decide_upscaled
when_scaled true d = do partition ← partition_of d.statefulset; pure (decide_upscaled d partition)
when_scaled false d = pure d

unfoldable pub canary_upscale_case : Decision → Exec Decision
unfolding when_scaled
canary_upscale_case d = do
  replicas ← lift (deref d.statefulset.spec.replicas)
  when_scaled
      (eqb_ℤ d.statefulset.status.replicas replicas
        && eqb_ℤ d.statefulset.status.ready_replicas replicas)
      d

abbrev advance : Decision → ℤ → Decision
advance d partition = record d {
  statefulset = move_partition d.statefulset partition;
  new_status = State.rollout;
  dirty = true;
  result = record d.result { requeue = true };
}

cap : Decision → Decision
cap d =
    if ltb_ℤ minute d.result.requeue_after
    then record d { result = record d.result { requeue_after = minute } }
    else d

unfoldable pub decide_rollout : Decision → Bool → ℤ → Decision
decide_rollout d ready partition =
    if eqb_ℤ partition (pos 0)
    then (if ready then record d { new_status = State.done } else d)
    else if ready
    then advance d partition
    else d

pub upscale : Decision → ℤ → Decision
upscale d partition =
    if ltb_ℤ (pos 0) partition
    then record d {
      statefulset = move_partition d.statefulset partition;
      new_status = State.canary_upscale;
    }
    else record d { new_status = State.canary_upscale }

requeue_after : Decision → ℤ → Decision
requeue_after d left = record d { result = record d.result { requeue_after = left } }

abbrev old_partition_of : Option ℤ → ℤ
old_partition_of none = minus_one
old_partition_of (some partition) = partition

module _ (env : Env) where
  unfoldable pub rollout_case : Decision → Exec Decision
  unfolding cap decide_rollout
  rollout_case d = do
    let capped = cap d
    ready ← partition_pod_is_ready_and_updated env capped.statefulset
    partition ← partition_of capped.statefulset
    pure (decide_rollout capped ready partition)

  when_timed_out : Bool → Decision → Exec Decision
  when_timed_out true d = pure (record d { new_status = State.failed })
  when_timed_out false d = rollout_case d

  -- Where the time is not over the case falls through to the next.
  unfoldable pub canary_case : Decision → Exec Decision
  unfolding when_timed_out
  canary_case d = do
    left ← get_time_out env d.statefulset Annotation.canary_watch_time
    when_timed_out (ltb_ℤ left (pos 0)) d

  start_upscale : Decision → Exec Decision
  start_upscale d = do
    partition ← partition_of d.statefulset
    let e = upscale d partition
    left ← get_time_out env e.statefulset Annotation.update_watch_time
    pure (requeue_after e left)

  start_canary : Decision → Exec Decision
  start_canary d = do
    left ← get_time_out env d.statefulset Annotation.canary_watch_time
    partition ← partition_of d.statefulset
    pure (record (requeue_after d left) {
      statefulset = move_partition d.statefulset partition;
      new_status = State.canary;
      dirty = true;
    })

  start : Bool → Decision → Exec Decision
  unfolding upscale requeue_after start_upscale start_canary
  start true d = start_upscale d
  start false d = start_canary d

  unfoldable pub pending_case : Decision → Exec Decision
  unfolding start
  pending_case d = do
    replicas ← lift (deref d.statefulset.spec.replicas)
    start (ltb_ℤ d.statefulset.status.replicas replicas) d

  -- The switch on the state of the rollout.
  unfoldable pub switch : String → Decision → Exec Decision
  switch status d =
      if status == State.canary_upscale
      then canary_upscale_case d
      else if status == State.canary
      then canary_case d
      else if status == State.rollout
      then rollout_case d
      else if status == State.pending
      then pending_case d
      else pure d

  -- What follows the switch: the write, if anything has changed.
  unfoldable pub finish : ℤ → Decision → Exec Result
  finish old_partition d =
      if not (d.new_status == index d.statefulset.meta.annotations Annotation.canary_rollout)
      then (do
        s ← lift (set_state d.new_status d.statefulset)
        update_with_partition_move env s old_partition
        pure d.result)
      else if d.dirty
      then (do update_with_partition_move env d.statefulset old_partition; pure d.result)
      else pure d.result

  unless_timed_out : Bool → StatefulSet → String → Option ℤ → Exec Result
  unless_timed_out true s status old = pure no_result
  unless_timed_out false s status old = do
    left ← get_time_out env s Annotation.update_watch_time
    d ← switch status (record {
      statefulset = s;
      new_status = status;
      dirty = false;
      result = record { requeue = false; requeue_after = left };
    })
    finish (old_partition_of old) d

  unfoldable pub proceed : StatefulSet → String → Exec Result
  unfolding unless_timed_out
  proceed s status = do
    old ← lift (deref s.spec.update_strategy.rolling_update)
    timed_out ← fail_if_timed_out env s Annotation.update_watch_time
    unless_timed_out timed_out s status old

  unless_terminal : Bool → StatefulSet → String → Exec Result
  unless_terminal true s status = pure no_result
  unless_terminal false s status = proceed s status

  unless_in_meltdown : Bool → Config → StatefulSet → Exec Result
  unfolding unless_terminal
  unless_in_meltdown true config s =
      pure (record { requeue = false; requeue_after = config.meltdown_requeue_after })
  unless_in_meltdown false config s =
      let status = index s.meta.annotations Annotation.canary_rollout in
      unless_terminal (status == State.failed || (status == State.done)) s status

  -- What Reconcile does with the StatefulSet that it has read.
  unfoldable pub reconcile_read : Config → StatefulSet → Exec Result
  unfolding unless_in_meltdown
  reconcile_read config s = do
    now ← read_clock env
    unless_in_meltdown (env.in_annotation_window config.meltdown_duration s.meta.annotations now)
        config s

  unfoldable pub reconcile : Config → Key → Exec Result
  reconcile config key = do s ← get_statefulset env key; reconcile_read config s
