-- ===== src/Rollout/Completion/Rounds.antt =====
-- The rounds of a rollout in a steady cluster.
use quarks_statefulset.Prelude.{
  ℕ, zero, suc, String, true, false, some, List, ◌∷◌, ℤ, pos, index, insert, ◌≡◌, sym, ap, ◌∙◌,
  subst, Outcome, ok, err, panic, get-insert_self, or_empty, arith, eqb_ℤ, if◌then◌else◌,
}
use quarks_statefulset.Names.Annotation
use quarks_statefulset.Names.State
use quarks_statefulset.Kube.Types.{Key, StatefulSet, Result}
use quarks_statefulset.Kube.Calls.{
  Call, History, Exec, pure, when_ok, ◌>>=◌, Emits, Emits-bind, Emits-if, Emits-pure,
}
use quarks_statefulset.Kube.Env.{Env, KeepsRollout}
use quarks_statefulset.Kube.Client.{get_statefulset, read_clock}
use quarks_statefulset.Rollout.Pods.{
  partition_of, pod_name, partition_pod_is_ready_and_updated, cleanup_non_ready_pod,
}
use quarks_statefulset.Rollout.Pods.Deletes.{Emits-cleanup_non_ready_pod}
use quarks_statefulset.Rollout.Update.{
  with_annotations, with_partition, mutation, update_statefulset, update_with_partition_move,
}
use quarks_statefulset.Rollout.Update.Writes.{HasPartition}
use quarks_statefulset.Rollout.Reconcile.{
  Config, Decision, switch, rollout_case, decide_rollout, finish, proceed, reconcile,
  reconcile_read,
}
use quarks_statefulset.Rollout.Completion.{
  latest, IsSteady, IsAt, mutated, IsQuiet, latest-Extends, get_time_out-unwatched,
  fail_if_timed_out-unwatched, Emits-partition_of, pod-ready_and_updated, update_statefulset-leaves,
  set_state_lem,
}

module _ (env : Env) (first : StatefulSet) (keeps : KeepsRollout env)
    (steady : IsSteady env first) where
  abbrev pub revision : String
  revision = first.status.update_revision

  pub ready_and_updated :
      (s : StatefulSet) (p : ℤ) (h : History)
      → HasPartition s p
      → s.status.update_revision ≡ revision
      → partition_pod_is_ready_and_updated env s h ≡ (
        ok true,
        Call.get_pod (record { name = pod_name s.meta.name p; namespace = s.meta.namespace }) ∷ h,
      )
  ready_and_updated s p h at same =
      pod-ready_and_updated env s p steady.pod h at (steady.found h _) steady.ready
        (steady.updated ∙ sym same)

  update_statefulset_lem :
      (s left : StatefulSet) (q : ℤ) (state : String) (h : History)
      → HasPartition s q
      → index s.meta.annotations Annotation.canary_rollout ≡ state
      → mutation q state (latest first h) ≡ ok left
      → (passed : StatefulSet) × (update_statefulset env s h
          ≡ (ok left, Call.create_or_update passed (ok left) ∷ Call.read_clock ∷ h))
  update_statefulset_lem s left q state h at in_state e =
      update_statefulset-leaves env keeps s left q state h at in_state λ s'. steady.writes _ _ _ ∙ e

  -- What follows the write of an object writes no other.
  after_write : ℤ → StatefulSet → Exec (Unit {0})
  after_write old left = do
    partition ← partition_of left
    if eqb_ℤ old partition then pure tt else cleanup_non_ready_pod env left partition

  Emits-after_write : (old : ℤ) (left : StatefulSet) → Emits IsQuiet (after_write old left)
  unfolding after_write
  Emits-after_write old left = Emits-bind _ _ (Emits-partition_of env left) λ partition.
      Emits-if _ _ _ (λ same. Emits-pure tt)
        (λ moved.
          Emits-cleanup_non_ready_pod env IsQuiet (λ key. tt) (λ pod unready. tt) left partition)

  pub latest-update_with_partition_move :
      (s left : StatefulSet) (q old : ℤ) (state : String) (h : History)
      → HasPartition s q
      → index s.meta.annotations Annotation.canary_rollout ≡ state
      → mutation q state (latest first h) ≡ ok left
      → latest first (update_with_partition_move env s old h).1 ≡ left
  unfolding update_with_partition_move after_write ◌>>=◌
  latest-update_with_partition_move s left q old state h at in_state e =
      let (passed, done) = update_statefulset_lem s left q state h at in_state e in
      rw done (
        latest-Extends first (
          (Emits-after_write old left).at
            (Call.create_or_update passed (ok left) ∷ Call.read_clock ∷ h)))

  abbrev begin : StatefulSet → Decision
  begin s = record {
    statefulset = s;
    new_status = State.rollout;
    dirty = false;
    result = record { requeue = false; requeue_after = pos 0 };
  }

  abbrev pub looked_at : StatefulSet → ℤ → History → History
  looked_at s p h =
      Call.get_pod (record { name = pod_name s.meta.name p; namespace = s.meta.namespace }) ∷ h

  rollout_case_lem :
      (s : StatefulSet) (p : ℤ) (h : History)
      → HasPartition s p
      → s.status.update_revision ≡ revision
      → rollout_case env (begin s) h ≡ (ok (decide_rollout (begin s) true p), looked_at s p h)
  unfolding rollout_case partition_of ◌>>=◌
  rollout_case_lem s p h at same = rw (ready_and_updated s p h at same, at)

  -- A round is the end of its decision.
  round :
      (config : Config) (key : Key) (h : History) (p : ℕ)
      → (a : IsAt revision State.rollout p (latest first h))
      → let s = latest first h in
        (reconcile env config key h).1
        ≡ (finish env
            (pos p)
            (decide_rollout (begin s) true (pos p))
            (looked_at s (pos p) (Call.read_clock ∷ Call.get_statefulset key ∷ h))).1
  unfolding reconcile reconcile_read proceed switch get_statefulset read_clock ◌>>=◌
  round config key h p a =
      let s = latest first h in
      let start = Call.read_clock ∷ Call.get_statefulset key ∷ h in
      rw (
        steady.reads h key,
        steady.awake config.meltdown_duration s.meta.annotations
            (env.clock (Call.get_statefulset key ∷ h)),
        a.in_state,
        a.at_partition,
        fail_if_timed_out-unwatched env s start a.unwatched,
        get_time_out-unwatched env s Annotation.update_watch_time start a.unwatched,
        rollout_case_lem s (pos p) start a.at_partition a.same_revision,
      )

  pub latest-when_ok :
      (r : Outcome (Unit {0}) × History) (result : Result) {left : StatefulSet}
      → latest first r.1 ≡ left
      → latest first (when_ok r (λ done. pure result)).1 ≡ left
  unfolding ◌>>=◌
  latest-when_ok (ok t, h) result l = l
  latest-when_ok (err x, h) result l = l
  latest-when_ok (panic, h) result l = l

  finish_moved :
      (s left : StatefulSet) (old q : ℤ) (h : History)
      → index s.meta.annotations Annotation.canary_rollout ≡ State.rollout
      → mutation q State.rollout (latest first h) ≡ ok left
      → (d : Decision) → d.statefulset ≡ with_partition s q
      → d.new_status ≡ State.rollout
      → d.dirty ≡ true
      → latest first (finish env old d h).1 ≡ left
  unfolding finish ◌>>=◌
  finish_moved s left old q h in_state e d moved new dirty =
      let state : index d.statefulset.meta.annotations Annotation.canary_rollout ≡ State.rollout =
        ap (λ (t : StatefulSet). index t.meta.annotations Annotation.canary_rollout) moved
        ∙ in_state in
      let at : HasPartition d.statefulset q =
        ap (λ (t : StatefulSet). t.spec.update_strategy.rolling_update) moved in
      rw (new, state, dirty)
        (latest-when_ok (update_with_partition_move env d.statefulset old h) d.result
          (latest-update_with_partition_move d.statefulset left q old State.rollout h at state e))

  finish_ends :
      (s left : StatefulSet) (m : List (String × String)) (h : History)
      → s.meta.annotations ≡ some m
      → index s.meta.annotations Annotation.canary_rollout ≡ State.rollout
      → HasPartition s (pos 0)
      → mutation (pos 0) State.done (latest first h) ≡ ok left
      → latest first (finish env (pos 0) (record (begin s) { new_status = State.done }) h).1 ≡ left
  unfolding finish ◌>>=◌
  finish_ends s left m h annotated in_state at e =
      let s' = with_annotations s (some (insert Annotation.canary_rollout State.done m)) in
      rw (in_state, set_state_lem s m State.done annotated)
        (latest-when_ok (update_with_partition_move env s' (pos 0) h) _ (
          latest-update_with_partition_move s' left (pos 0) (pos 0) State.done h at
            (ap or_empty (get-insert_self Annotation.canary_rollout State.done m)) e))

  decide_moves :
      (s : StatefulSet) (k : ℕ)
      → let d = decide_rollout (begin s) true (pos (suc k)) in
        (d.statefulset ≡ with_partition s (pos k))
        × (d.new_status ≡ State.rollout)
        × (d.dirty ≡ true)
  unfolding decide_rollout
  decide_moves s k = ground arith

  module _ (config : Config) (key : Key) where
    -- One reconcile after another, of the same StatefulSet.
    unfoldable pub rounds : ℕ → History → History
    rounds zero h = h
    rounds (suc n) h = rounds n (reconcile env config key h).1

    round_moves :
        (h : History) (k : ℕ)
        → IsAt revision State.rollout (suc k) (latest first h)
        → IsAt revision State.rollout k (latest first (reconcile env config key h).1)
    round_moves h k a =
        let s = latest first h in
        let (left, e, at) = mutated revision State.rollout State.rollout (suc k) k s a in
        let (moved, new, dirty) = decide_moves s k in
        let h' = looked_at s (pos (suc k)) (Call.read_clock ∷ Call.get_statefulset key ∷ h) in
        let last = finish_moved s left (pos (suc k)) (pos k) h' a.in_state e _ moved new dirty in
        subst (λ t. IsAt revision State.rollout k t)
          (sym (ap (λ x. latest first x) (round config key h (suc k) a) ∙ last)) at

    round_done :
        (h : History)
        → IsAt revision State.rollout zero (latest first h)
        → IsAt revision State.done zero (latest first (reconcile env config key h).1)
    unfolding decide_rollout
    round_done h a =
        let s = latest first h in
        let (left, e, at) = mutated revision State.rollout State.done zero zero s a in
        let h' = looked_at s (pos 0) (Call.read_clock ∷ Call.get_statefulset key ∷ h) in
        let last = finish_ends s left a.annotations h' a.annotated a.in_state a.at_partition e in
        subst (λ t. IsAt revision State.done zero t)
          (sym (ap (λ x. latest first x) (round config key h zero a) ∙ last)) at

    -- In a steady cluster (the API server keeps what is written, the pods are ready and carry the
    -- update revision, there is no meltdown), a StatefulSet in the state Rollout at partition k with
    -- no update watch time is, after k + 1 reconciles, in the state Done at partition 0.
    pub rollout_completes :
        (k : ℕ) (h : History)
        → IsAt revision State.rollout k (latest first h)
        → IsAt revision State.done zero (latest first (rounds (suc k) h))
    unfolding rounds
    rollout_completes zero h a = round_done h a
    rollout_completes (suc k) h a =
        rollout_completes k (reconcile env config key h).1 (round_moves h k a)
