-- ===== src/Rollout/Races.antt =====
-- A reconcile (statefulset_rollout_reconciler.go) that has read a StatefulSet before an update of it
-- that the webhook (statefulset_webhook.go) marks, and writes after it.
use quarks_statefulset.Prelude.{
  String, true, false, some, List, ◌∷◌, ℤ, pos, index, get, insert, get-insert_self, or_empty, ◌≡◌,
  refl, sym, ap, ◌∙◌, Outcome, ok, none, ok_injective,
}
use quarks_statefulset.Names.Annotation
use quarks_statefulset.Names.Label
use quarks_statefulset.Names.State
use quarks_statefulset.Kube.Types.{Key, StatefulSet, Pod}
use quarks_statefulset.Kube.Calls.{Call, History, ◌>>=◌}
use quarks_statefulset.Kube.Env.{Env, KeepsRollout}
use quarks_statefulset.Kube.Client.{get_statefulset, read_clock}
use quarks_statefulset.Rollout.Pods.{partition_of, pod_name}
use quarks_statefulset.Rollout.Update.{
  with_annotations, with_partition, mutation, update_with_partition_move,
}
use quarks_statefulset.Rollout.Update.Writes.{HasPartition}
use quarks_statefulset.Rollout.Webhook.{configure_for_rollout}
use quarks_statefulset.Rollout.Webhook.Starts.{started, configure_for_rollout_lem}
use quarks_statefulset.Rollout.Trigger.{check_update, check_state}
use quarks_statefulset.Rollout.Reconcile.{
  Config, Decision, switch, rollout_case, decide_rollout, finish, proceed, reconcile,
  reconcile_read,
}
use quarks_statefulset.Rollout.Completion.{
  get_time_out-unwatched, fail_if_timed_out-unwatched, pod-ready_and_updated,
  update_statefulset-leaves, set_state_lem,
}

-- A reconcile reads a StatefulSet whose last pod to be updated is ready, outside a meltdown.
pub record ReadsLast (env : Env) (config : Config) (key : Key) (h : History) (s : StatefulSet)
    : Type 0 where
  pub answer : env.statefulset_at h key ≡ ok s
  pub awake :
      env.in_annotation_window config.meltdown_duration s.meta.annotations
        (env.clock (Call.get_statefulset key ∷ h))
      ≡ false
  pub annotations : List (String × String)
  pub annotated : s.meta.annotations ≡ some annotations
  pub in_state : index s.meta.annotations Annotation.canary_rollout ≡ State.rollout
  pub unwatched : get s.meta.annotations Annotation.update_watch_time ≡ none
  pub at_partition : HasPartition s (pos 0)
  pub pod : Pod
  pub found :
      env.pod_at
        (Call.read_clock ∷ Call.get_statefulset key ∷ h)
        (record { name = pod_name s.meta.name (pos 0); namespace = s.meta.namespace })
      ≡ ok pod
  pub ready : env.is_pod_ready pod ≡ true
  pub updated : index pod.meta.labels Label.controller_revision_hash ≡ s.status.update_revision

-- The StatefulSet that CreateOrUpdate leaves when it loads another than was read.
abbrev ended : List (String × String) → StatefulSet → StatefulSet
ended m s =
    with_annotations (with_partition s (pos 0))
      (some (insert Annotation.canary_rollout State.done m))

mutation-ended :
    (s : StatefulSet) (m : List (String × String)) (n : ℤ)
    → s.meta.annotations ≡ some m
    → HasPartition s n
    → mutation (pos 0) State.done s ≡ ok (ended m s)
unfolding mutation
mutation-ended s m n annotated at = rw (at, annotated)

no_event :
    (old left : StatefulSet)
    → get left.meta.annotations Annotation.canary_rollout ≡ some State.done
    → check_update old left ≡ false
unfolding check_update check_state
no_event old left e = rw e

module _ (env : Env) (keeps : KeepsRollout env) where
  write_done :
      (s left : StatefulSet) (h : History)
      → HasPartition s (pos 0)
      → HasPartition left (pos 0)
      → index s.meta.annotations Annotation.canary_rollout ≡ State.done
      → ((s' : StatefulSet)
          → env.created_or_updated (Call.read_clock ∷ h) s' (mutation (pos 0) State.done) ≡ ok left)
      → (passed : StatefulSet) × (update_with_partition_move env s (pos 0) h
          ≡ (ok tt, Call.create_or_update passed (ok left) ∷ Call.read_clock ∷ h))
  unfolding update_with_partition_move partition_of ◌>>=◌
  write_done s left h at left_at in_state leaves =
      let (passed, e) =
        update_statefulset-leaves env keeps s left (pos 0) State.done h at in_state leaves in
      (passed, rw (e, left_at))

  module _ (config : Config) (key : Key) (h : History) (read : StatefulSet)
      (r : ReadsLast env config key h read) where
    abbrev looked : History
    looked =
        Call.get_pod
          (record { name = pod_name read.meta.name (pos 0); namespace = read.meta.namespace })
        ∷ Call.read_clock
        ∷ Call.get_statefulset key
        ∷ h

    abbrev begin : Decision
    begin = record {
      statefulset = read;
      new_status = State.rollout;
      dirty = false;
      result = record { requeue = false; requeue_after = pos 0 };
    }

    last_case :
        rollout_case env begin (Call.read_clock ∷ Call.get_statefulset key ∷ h)
        ≡ (ok (record begin { new_status = State.done }), looked)
    unfolding rollout_case decide_rollout partition_of ◌>>=◌
    last_case =
        let start = Call.read_clock ∷ Call.get_statefulset key ∷ h in
        simp (
          pod-ready_and_updated env read (pos 0) r.pod start r.at_partition r.found r.ready
              r.updated,
          r.at_partition,
        )

    reads_last :
        (reconcile env config key h).1
        ≡ (finish env (pos 0) (record begin { new_status = State.done }) looked).1
    unfolding reconcile reconcile_read proceed switch get_statefulset read_clock ◌>>=◌
    reads_last =
        let start = Call.read_clock ∷ Call.get_statefulset key ∷ h in
        simp (
          r.answer,
          r.awake,
          r.in_state,
          r.at_partition,
          fail_if_timed_out-unwatched env read start r.unwatched,
          get_time_out-unwatched env read Annotation.update_watch_time start r.unwatched,
          last_case,
        )

    last_round :
        (left : StatefulSet)
        → HasPartition left (pos 0)
        → ((s' : StatefulSet)
            → env.created_or_updated (Call.read_clock ∷ looked) s' (mutation (pos 0) State.done)
              ≡ ok left)
        → (passed : StatefulSet) × ((reconcile env config key h).1
            ≡ Call.create_or_update passed (ok left) ∷ Call.read_clock ∷ looked)
    unfolding finish ◌>>=◌
    last_round left left_at leaves =
        let m = insert Annotation.canary_rollout State.done r.annotations in
        let done = with_annotations read (some m) in
        let (passed, e) =
          write_done done left looked r.at_partition left_at
            (ap or_empty (get-insert_self Annotation.canary_rollout State.done r.annotations))
            leaves in
        (
          passed,
          reads_last ∙ rw (r.in_state, set_state_lem read r.annotations State.done r.annotated, e),
        )

    -- What a write leaves that comes after another change of the StatefulSet.
    pub record Ended (changed : StatefulSet) : Type 0 where
      pub left : StatefulSet
      pub passed : StatefulSet
      pub before : History
      pub written : (reconcile env config key h).1 ≡ Call.create_or_update passed (ok left) ∷ before
      pub same_template : left.spec.template ≡ changed.spec.template
      pub at_partition : HasPartition left (pos 0)
      pub in_state : get left.meta.annotations Annotation.canary_rollout ≡ some State.done
      pub unnoticed : (old : StatefulSet) → check_update old left ≡ false

    loaded-Ended :
        (s : StatefulSet) (m : List (String × String)) (n : ℤ)
        → s.meta.annotations ≡ some m
        → HasPartition s n
        → ((g : History) (s' : StatefulSet) (f : StatefulSet → Outcome StatefulSet)
            → env.created_or_updated g s' f ≡ f s)
        → Ended s
    loaded-Ended s m n annotated at loads =
        let in_state = get-insert_self Annotation.canary_rollout State.done m in
        let (passed, e) =
          last_round (ended m s) refl λ s'. loads _ s' _ ∙ mutation-ended s m n annotated at in
        record {
          left = ended m s;
          passed = passed;
          before = Call.read_clock ∷ looked;
          written = e;
          same_template = refl;
          at_partition = refl;
          in_state = in_state;
          unnoticed = λ old. no_event old (ended m s) in_state;
        }

    -- Where the webhook has marked an update of a StatefulSet after a reconcile has read the object
    -- with the last pod of the rollout before ready (outside a meltdown, with no update watch
    -- time), and CreateOrUpdate then loads the marked object, the reconcile leaves the update's
    -- template at partition 0 in the state Done, which CheckUpdate lets no later event of pass. The
    -- law is that of SetLastReconcile.
    pub stale_write-Ended :
        (webhook : Env) (s marked : StatefulSet) (m : List (String × String)) (replicas : ℤ)
        (g : History)
        → s.meta.annotations ≡ some m
        → s.spec.replicas ≡ some replicas
        → (configure_for_rollout webhook s g).0 ≡ ok marked
        → ((g : History) (s' : StatefulSet) (f : StatefulSet → Outcome StatefulSet)
            → env.created_or_updated g s' f ≡ f marked)
        → (marked.spec.template ≡ s.spec.template) × Ended marked
    stale_write-Ended webhook s marked m replicas g annotated wanted marks loads =
        let now = webhook.clock g in
        let low = webhook.min_int32 replicas s.status.replicas in
        let is_marked : started m State.pending now low s ≡ marked = ok_injective (
          sym (ap (λ r. r.0) (configure_for_rollout_lem webhook s m replicas g annotated wanted))
          ∙ marks) in
        (
          ap (λ (t : StatefulSet). t.spec.template) (sym is_marked),
          loaded-Ended marked _ low (ap (λ (t : StatefulSet). t.meta.annotations) (sym is_marked))
              (ap (λ (t : StatefulSet). t.spec.update_strategy.rolling_update) (sym is_marked))
              loads,
        )
