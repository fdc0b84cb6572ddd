-- ===== src/Scenarios/Rollout.antt =====
-- A rollout at concrete inputs.
use quarks_statefulset.Prelude.{
  ◌≡◌, refl, ◌⊎◌, inr, ◌↔◌, none, some, [], ◌∷◌, ◌+◌, ◌*◌, true, false, String, pos, negsuc, ltb_ℤ,
  leb, arith, get, ok, panic, ◌≤◌, ◌≤ℤ◌, ◌≢◌, ap, pos_part,
}
use quarks_statefulset.Names.State
use quarks_statefulset.Names.Annotation
use quarks_statefulset.Kube.Calls.{◌>>=◌, Extends, Call, Returns}
use quarks_statefulset.Kube.Env.{Env, KeepsRollout}
use quarks_statefulset.Kube.Client
use quarks_statefulset.Rollout.Update.Writes.{HasPartition}
use quarks_statefulset.Kube.Types.{StatefulSet}
use quarks_statefulset.Text.Decimal.{itoa, parse_int64}
use quarks_statefulset.Rollout.Timeout.{get_time_out, time_left, deadline_of}
use quarks_statefulset.Rollout.Pods.{
  partition_of, get_pod_with_index, is_updated, partition_pod_is_ready_and_updated,
  cleanup_non_ready_pod, pod_name,
}
use quarks_statefulset.Rollout.Update.{
  update_with_partition_move, update_statefulset, fail_if_timed_out, mutation, set_state,
}
use quarks_statefulset.Rollout.Reconcile.{
  Config, reconcile, reconcile_read, proceed, switch, rollout_case, canary_case,
  canary_upscale_case, pending_case, finish, decide_rollout, Decision, no_result,
}
use quarks_statefulset.Rollout.Reconcile.Writes.{Allowed, reconcile-Allowed}
use quarks_statefulset.Rollout.Completion.{latest, IsSteady, IsAt}
use quarks_statefulset.Rollout.Completion.Rounds.{rounds}
use quarks_statefulset.Rollout.Completion.Upscale.{IsScaled, upscale_completes}
use quarks_statefulset.Rollout.Reconcile.Diagram.{Follows}
use quarks_statefulset.Rollout.Reconcile.Steps.{switch-Follows}
use quarks_statefulset.Rollout.Trigger.{check_update}
use quarks_statefulset.Rollout.Rest.{IsDue, terminal_rests, check_update-IsDue, time_left-negative}
use quarks_statefulset.Rollout.Faults.{pending-underflow, nil_partition-panic}
use quarks_statefulset.Scenarios.Fake.{Cluster, fake, fake-AppliesMutation, fake-KeepsRollout}
use quarks_statefulset.Scenarios.Objects.{key, rolling, cluster, ready_pods, pod}
use quarks_statefulset.Rollout.Reconcile.Chains.{Chain, none_yet, change, chain_bounded}

abbrev config : Config
config = record { meltdown_duration = pos 0; meltdown_requeue_after = pos 5 }

abbrev halfway : Cluster
halfway = cluster (rolling "Rollout" (some (pos 1))) ready_pods

reconcile-Allowed_example :
    Extends (Allowed (fake halfway) "Rollout" (pos 1)) [] (reconcile (fake halfway) config key []).1
reconcile-Allowed_example =
    reconcile-Allowed (fake halfway) (fake-AppliesMutation halfway) (fake-KeepsRollout halfway)
      (rolling "Rollout" (some (pos 1))) (pos 1) refl config key [] refl

abbrev start : String → Decision
start state = record {
  statefulset = rolling "Rollout" (some (pos 1));
  new_status = state;
  dirty = false;
  result = record { requeue = false; requeue_after = pos 0 };
}

abbrev finished : Cluster
finished = cluster (rolling "Done" (some (pos 0))) ready_pods

-- The object that the API server holds after a round.
after_round : Cluster → StatefulSet
unfolding reconcile reconcile_read proceed switch rollout_case canary_case canary_upscale_case
    pending_case finish decide_rollout get_time_out time_left deadline_of partition_of
    get_pod_with_index is_updated partition_pod_is_ready_and_updated cleanup_non_ready_pod pod_name
    update_with_partition_move update_statefulset fail_if_timed_out mutation set_state itoa
    parse_int64 Client.get_statefulset Client.get_pod Client.read_clock Client.create_or_update
    Client.delete_pod ◌>>=◌
after_round c = latest c.statefulset (reconcile (fake c) config key []).1

moves_on : (after_round halfway).spec.update_strategy.rolling_update ≡ some (some (pos 0))
unfolding after_round
moves_on = refl

completes :
    get
      (after_round (cluster (rolling "Rollout" (some (pos 0))) ready_pods)).meta.annotations
      Annotation.canary_rollout
    ≡ some "Done"
unfolding after_round
completes = refl

switch-Follows_example :
    Returns
      (λ e. Follows State.rollout (start State.rollout) e (pos 1))
      (switch (fake halfway) State.rollout (start State.rollout))
switch-Follows_example =
    switch-Follows (fake halfway) (start State.rollout) (pos 1) refl State.rollout refl

-- A cluster with one pod for every name, and a StatefulSet three steps from the end.
abbrev first : StatefulSet
first = rolling "CanaryUpscale" (some (pos 2))

abbrev steady_env : Env
steady_env = record (fake (cluster first ready_pods)) { pod_at = λ h key. ok (pod "web-0" "ready") }

steady_env-KeepsRollout : KeepsRollout steady_env
steady_env-KeepsRollout = record { kept = (fake-KeepsRollout (cluster first ready_pods)).kept }

steady_env-IsSteady : IsSteady steady_env first
steady_env-IsSteady = record {
  reads = λ h key. refl;
  writes = λ h s f. refl;
  pod = pod "web-0" "ready";
  found = λ h key. refl;
  ready = refl;
  updated = refl;
  awake = λ length annotations now. refl;
}

first-IsAt : IsAt "r2" State.canary_upscale 2 first
first-IsAt = record {
  annotations = (Annotation.canary_rollout, "CanaryUpscale") ∷ [];
  annotated = refl;
  in_state = refl;
  unwatched = refl;
  at_partition = refl;
  same_revision = refl;
}

first-IsScaled : IsScaled first
first-IsScaled = record { replicas = pos 2; wanted = refl; present = refl; ready = refl }

upscale_completes_example : IsAt "r2" State.done 0 (
    latest first
      (rounds steady_env first steady_env-KeepsRollout steady_env-IsSteady config key 3 []))
upscale_completes_example =
    upscale_completes steady_env first steady_env-KeepsRollout steady_env-IsSteady config key 2 []
      first-IsAt first-IsScaled

terminal_rests_example :
    ((reconcile (fake finished) config key []).1 ≡ Call.read_clock ∷ Call.get_statefulset key ∷ [])
    × (((reconcile (fake finished) config key []).0 ≡ ok no_result)
        ⊎ ((reconcile (fake finished) config key []).0
            ≡ ok (record { requeue = false; requeue_after = config.meltdown_requeue_after })))
terminal_rests_example =
    terminal_rests (fake finished) config key [] (rolling "Done" (some (pos 0))) refl (inr refl)

check_update-IsDue_example :
    (check_update (rolling "Rollout" (some (pos 1))) (rolling "Pending" (some (pos 1))) ≡ true)
    ↔ IsDue (rolling "Rollout" (some (pos 1))) (rolling "Pending" (some (pos 1)))
check_update-IsDue_example =
    check_update-IsDue (rolling "Rollout" (some (pos 1))) (rolling "Pending" (some (pos 1)))

time_left-negative_example :
    ltb_ℤ (time_left (pos 5) (pos 2) (pos 3000000000)) (pos 0)
    ≡ leb (2 * 1000000000 + 5 * 1000000) 3000000000
time_left-negative_example = time_left-negative 5 2 3000000000 (omega arith) (omega arith)

abbrev pending : Decision
pending = record (start State.pending) { statefulset = rolling "Pending" (some (pos 0)) }

pending-underflow_example :
    (e : Decision) × (switch (fake halfway) State.pending pending [] ≡ (ok e, []))
    × HasPartition e.statefulset (negsuc 0)
    × (e.new_status ≡ State.canary)
    × (e.dirty ≡ true)
pending-underflow_example = pending-underflow (fake halfway) pending (pos 2) [] refl refl refl refl

nil_partition-panic_example :
    (reconcile (fake (cluster (rolling "Rollout" none) ready_pods)) config key []).0 ≡ panic
nil_partition-panic_example =
    nil_partition-panic (fake (cluster (rolling "Rollout" none) ready_pods)) config key []
      (rolling "Rollout" none) refl refl refl refl refl

abbrev moved : Decision
moved = record (start State.rollout) {
  statefulset = rolling "Rollout" (some (pos 0));
  dirty = true;
  result = record { requeue = true; requeue_after = pos 0 };
}

moves_halfway : (switch (fake halfway) State.rollout (start State.rollout) []).0 ≡ ok moved
unfolding switch rollout_case canary_case canary_upscale_case pending_case decide_rollout
    get_time_out time_left deadline_of partition_of get_pod_with_index is_updated
    partition_pod_is_ready_and_updated cleanup_non_ready_pod pod_name update_with_partition_move
    fail_if_timed_out itoa parse_int64 Client.get_pod Client.read_clock Client.delete_pod ◌>>=◌
moves_halfway = refl

one_left : pos 0 ≢ pos 1
one_left same = omega (arith, ap pos_part same)

abbrev one_change : Chain State.rollout (pos 1) 1 State.rollout (pos 0)
one_change = change none_yet (inr one_left) record {
  env = fake halfway;
  before = start State.rollout;
  after = moved;
  calls = [];
  in_state = refl;
  at_partition = refl;
  decided = moves_halfway;
  new_state = refl;
  new_partition = refl;
}

chain_bounded_example : (1 ≤ 1 + 2) × (pos 0 ≤ℤ pos 0) × (pos 0 ≤ℤ pos 1)
chain_bounded_example = chain_bounded State.rollout 1 (λ same. omega arith) one_change
