-- ===== src/Rollout/Completion/Canary.antt =====
-- The rounds of a rollout that start in the state Canary.
use quarks_statefulset.Prelude.{
  ℕ, zero, suc, String, true, false, none, ℤ, pos, get, ◌≡◌, sym, ap, ◌∙◌, subst, ok, ◌==◌, arith,
  refl,
}
use quarks_statefulset.Names.Annotation
use quarks_statefulset.Names.State
use quarks_statefulset.Kube.Types.{Key, StatefulSet}
use quarks_statefulset.Kube.Calls.{History, ◌>>=◌}
use quarks_statefulset.Kube.Env.{Env, KeepsRollout}
use quarks_statefulset.Rollout.Pods.{partition_of}
use quarks_statefulset.Rollout.Update.{with_partition}
use quarks_statefulset.Rollout.Update.Writes.{HasPartition}
use quarks_statefulset.Rollout.Reconcile.{
  Config, Decision, switch, canary_case, rollout_case, decide_rollout, reconcile,
}
use quarks_statefulset.Rollout.Completion.{latest, IsSteady, IsAt, mutated, get_time_out-unwatched}
use quarks_statefulset.Rollout.Completion.Rounds.{
  revision, looked_at, ready_and_updated, rounds, rollout_completes,
}
use quarks_statefulset.Rollout.Completion.Changes.{IsBefore, begin, start, round_changes}

module _ (env : Env) (first : StatefulSet) (keeps : KeepsRollout env)
    (steady : IsSteady env first) where
  canary_decides :
      (s : StatefulSet) (p : ℤ) (h : History)
      → HasPartition s p
      → s.status.update_revision ≡ revision env first keeps steady
      → get s.meta.annotations Annotation.canary_watch_time ≡ none
      → switch env State.canary (begin env first keeps steady State.canary s) h ≡ (
        ok (decide_rollout (begin env first keeps steady State.canary s) true p),
        looked_at env first keeps steady s p h,
      )
  unfolding switch canary_case rollout_case partition_of ◌>>=◌
  canary_decides s p h at same unwatched = rw (
    get_time_out-unwatched env s Annotation.canary_watch_time h unwatched,
    ready_and_updated env first keeps steady s p h at same,
    at,
  )

  decide_ends :
      (s : StatefulSet)
      → let d = decide_rollout (begin env first keeps steady State.canary s) true (pos 0) in
        (d.statefulset ≡ s) × (d.new_status ≡ State.done)
  unfolding decide_rollout
  decide_ends s = (refl, refl)

  decide_goes_on :
      (s : StatefulSet) (k : ℕ)
      → let d = decide_rollout (begin env first keeps steady State.canary s) true (pos (suc k)) in
        (d.statefulset ≡ with_partition s (pos k)) × (d.new_status ≡ State.rollout)
  unfolding decide_rollout
  decide_goes_on s k = ground arith

  module _ (config : Config) (key : Key) where
    abbrev after : History → StatefulSet
    after h = latest first (reconcile env config key h).1

    abbrev IsIn : String → ℕ → StatefulSet → Type 0
    IsIn = IsAt (revision env first keeps steady)

    canary_round :
        (h : History) (k q : ℕ) (new : String)
        → IsBefore (revision env first keeps steady) State.canary k (latest first h)
        → (d : Decision)
        → decide_rollout (begin env first keeps steady State.canary (latest first h)) true (pos k)
          ≡ d
        → (d.statefulset.meta ≡ (latest first h).meta)
        → HasPartition d.statefulset (pos q)
        → d.new_status ≡ new
        → (new == State.canary) ≡ false
        → IsIn new q (after h)
    canary_round h k q new b d decision kept at_q status changes =
        let s = latest first h in
        let (left, e, at) =
          mutated (revision env first keeps steady) State.canary new k q s b.here in
        let looked =
          looked_at env first keeps steady s (pos k) (start env first keeps steady key h) in
        let decides =
          canary_decides s (pos k) (start env first keeps steady key h) b.here.at_partition
            b.here.same_revision b.no_canary_time
          ∙ ap (λ x. (ok x, looked)) decision in
        let left_is =
          round_changes env first keeps steady config key h looked State.canary new k q d left refl
            refl changes b.here decides refl kept at_q status e in
        subst (IsIn new q) (sym left_is) at

    pub canary_completes :
        (k : ℕ) (h : History)
        → IsBefore (revision env first keeps steady) State.canary k (latest first h)
        → IsIn State.done zero (latest first (rounds env first keeps steady config key (suc k) h))
    unfolding rounds
    canary_completes zero h b =
        let (same, status) = decide_ends (latest first h) in
        canary_round h zero zero State.done b _ refl (ap (λ (t : StatefulSet). t.meta) same)
          (ap (λ (t : StatefulSet). t.spec.update_strategy.rolling_update) same
            ∙ b.here.at_partition)
          status refl
    canary_completes (suc k) h b =
        let (moved, status) = decide_goes_on (latest first h) k in
        rollout_completes env first keeps steady config key k (reconcile env config key h).1 (
          canary_round h (suc k) k State.rollout b _ refl (ap (λ (t : StatefulSet). t.meta) moved)
            (ap (λ (t : StatefulSet). t.spec.update_strategy.rolling_update) moved) status refl)
