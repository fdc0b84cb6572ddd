-- ===== src/Scenarios/Update.antt =====
-- An update of two replicas, from the webhook to the end of its rollout.
use quarks_statefulset.Prelude.{
  All, get_elem?, none, some, String, List, [], ◌∷◌, ◌≡◌, refl, pos, ok, arith,
}
use quarks_statefulset.Names.Annotation
use quarks_statefulset.Names.State
use quarks_statefulset.Kube.Types.{StatefulSet}
use quarks_statefulset.Kube.Calls.{Call, ◌>>=◌}
use quarks_statefulset.Kube.Client.{
  read_clock, get_statefulset, get_pod, create_or_update, delete_pod,
}
use quarks_statefulset.Kube.Env.{Env, KeepsRollout, AppliesMutation}
use quarks_statefulset.Rollout.Reconcile.{
  Config, reconcile, reconcile_read, proceed, switch, pending_case, finish,
}
use quarks_statefulset.Rollout.Timeout.{get_time_out, time_left, deadline_of}
use quarks_statefulset.Rollout.Update.{
  update_with_partition_move, update_statefulset, fail_if_timed_out, mutation, set_state,
}
use quarks_statefulset.Rollout.Webhook.{configure_for_rollout}
use quarks_statefulset.Rollout.Webhook.Starts.{started}
use quarks_statefulset.Rollout.Completion.{latest, IsSteady, IsAt}
use quarks_statefulset.Rollout.Completion.Rounds.{rounds}
use quarks_statefulset.Rollout.Completion.Update.{update_completes}
use quarks_statefulset.Scenarios.Fake.{
  fake, fake-KeepsRollout, fake-TakesMinimum, fake-AppliesMutation,
}
use quarks_statefulset.Rollout.Interleavings.{Held, nothing, next, updated, reconciled, IsRolling}
use quarks_statefulset.Rollout.Interleavings.Rolling.{Held-IsRolling}
use quarks_statefulset.Rollout.Races.{ReadsLast, Ended, stale_write-Ended}
use quarks_statefulset.Text.Decimal.{itoa, parse_int64}
use quarks_statefulset.Rollout.Pods.{
  pod_name, partition_of, get_pod_with_index, cleanup_non_ready_pod,
}
use quarks_statefulset.Scenarios.Objects.{key, rolling, sts, cluster, ready_pods, pod}

abbrev annotations : List (String × String)
annotations = (Annotation.canary_rollout_enabled, "true") ∷ []

abbrev two : StatefulSet
two = sts none (pos 2) (pos 2) annotations

-- As the webhook leaves it.
abbrev first : StatefulSet
first = started annotations State.pending (pos 0) (pos 2) two

abbrev webhook : Env
webhook = fake (cluster two ready_pods)

abbrev env : Env
env = record (fake (cluster first ready_pods)) { pod_at = λ h key. ok (pod "web-0" "ready") }

keeps : KeepsRollout env
keeps = record { kept = (fake-KeepsRollout (cluster first ready_pods)).kept }

steady : IsSteady env first
steady = record {
  reads = λ h key. refl;
  writes = λ h s f. refl;
  pod = pod "web-0" "ready";
  found = λ h key. refl;
  ready = refl;
  updated = refl;
  awake = λ length annotations now. refl;
}

abbrev config : Config
config = record { meltdown_duration = pos 0; meltdown_requeue_after = pos 5 }

marks : (configure_for_rollout webhook two []).0 ≡ ok first
unfolding configure_for_rollout read_clock ◌>>=◌
marks = refl

update_completes_example :
    IsAt "r2" State.done 0 (latest first (rounds env first keeps steady config key 3 []))
update_completes_example =
    update_completes webhook env (fake-TakesMinimum (cluster two ready_pods)) keeps two first
      annotations 1 [] steady config key refl refl (omega arith) refl refl marks

-- Before the update, with the last pod ready.
abbrev before : StatefulSet
before = rolling "Rollout" (some (pos 0))

-- It is read as it was before the update, and CreateOrUpdate loads it as the webhook left it.
abbrev racing : Env
racing = record (fake (cluster before ready_pods)) { created_or_updated = λ h s f. f first }

racing_keeps : KeepsRollout racing
racing_keeps = record { kept = (fake-KeepsRollout (cluster before ready_pods)).kept }

reads_last : ReadsLast racing config key [] before
unfolding pod_name itoa
reads_last = record {
  answer = refl;
  awake = refl;
  annotations = _;
  annotated = refl;
  in_state = refl;
  unwatched = refl;
  at_partition = refl;
  pod = pod "web-0" "ready";
  found = refl;
  ready = refl;
  updated = refl;
}

stale_write-Ended_example :
    (first.spec.template ≡ two.spec.template)
    × Ended racing racing_keeps config key [] before reads_last first
stale_write-Ended_example =
    stale_write-Ended racing racing_keeps config key [] before reads_last webhook two first
      annotations (pos 2) [] refl refl marks (λ h s f. refl)

-- What the first reconcile of the update writes.
abbrev second : StatefulSet
second = latest first (reconcile env config key []).1

writes_second :
    (passed : StatefulSet) × (get_elem? (reconcile env config key []).1 1
      ≡ some (Call.create_or_update passed (ok second)))
unfolding reconcile reconcile_read proceed switch pending_case finish get_time_out time_left
    deadline_of partition_of get_pod_with_index cleanup_non_ready_pod pod_name
    update_with_partition_move update_statefulset fail_if_timed_out mutation set_state itoa
    parse_int64 get_statefulset get_pod read_clock create_or_update delete_pod ◌>>=◌
writes_second = (_, refl)

applies : AppliesMutation env
applies = record { applied = (fake-AppliesMutation (cluster first ready_pods)).applied }

held : Held (second ∷ first ∷ [])
held =
    next
      (next nothing (
        updated webhook (fake-TakesMinimum (cluster two ready_pods)) two annotations 1 1 [] refl
          refl refl marks))
      (reconciled env applies keeps config key 0 1 first writes_second.0 refl refl writes_second.1)

Held-IsRolling_example : All IsRolling (second ∷ first ∷ [])
Held-IsRolling_example = Held-IsRolling held
