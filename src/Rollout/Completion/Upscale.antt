-- ===== src/Rollout/Completion/Upscale.antt =====
-- The rounds of a rollout that start in the state CanaryUpscale.
use quarks_statefulset.Prelude.{
  ℕ, zero, suc, String, true, some, ℤ, pos, ◌≡◌, sym, ap, ◌∙◌, subst, ok, ◌==◌, false, arith, refl,
  eqb_ℤ,
}
use quarks_statefulset.Names.State
use quarks_statefulset.Kube.Types.{Key, StatefulSet}
use quarks_statefulset.Kube.Calls.{History, ◌>>=◌}
use quarks_statefulset.Kube.Env.{Env, KeepsRollout}
use quarks_statefulset.Rollout.Pods.{partition_of}
use quarks_statefulset.Rollout.Update.{with_partition}
use quarks_statefulset.Rollout.Update.Writes.{HasPartition}
use quarks_statefulset.Rollout.Reconcile.{
  Config, Decision, switch, canary_upscale_case, decide_upscaled, when_scaled, reconcile,
}
use quarks_statefulset.Rollout.Completion.{latest, IsSteady, IsAt, mutated}
use quarks_statefulset.Rollout.Completion.Rounds.{revision, rounds, rollout_completes}
use quarks_statefulset.Rollout.Completion.Changes.{begin, start, round_changes}

-- All the replicas that are wanted are there, and ready.
pub record IsScaled (s : StatefulSet) : Type 0 where
  pub replicas : ℤ
  pub wanted : s.spec.replicas ≡ some replicas
  pub present : s.status.replicas ≡ replicas
  pub ready : s.status.ready_replicas ≡ replicas

eqb_ℤ_refl : (a : ℤ) → eqb_ℤ a a ≡ true
eqb_ℤ_refl a = ground arith

module _ (env : Env) (first : StatefulSet) (keeps : KeepsRollout env)
    (steady : IsSteady env first) where
  abbrev started : StatefulSet → Decision
  started = begin env first keeps steady State.canary_upscale

  upscale_decides :
      (s : StatefulSet) (p : ℤ) (h : History)
      → IsScaled s
      → HasPartition s p
      → switch env State.canary_upscale (started s) h ≡ (ok (decide_upscaled (started s) p), h)
  unfolding switch canary_upscale_case when_scaled partition_of ◌>>=◌
  upscale_decides s p h scaled at =
      simp (scaled.wanted, scaled.present, scaled.ready, eqb_ℤ_refl scaled.replicas, at)

  module _ (config : Config) (key : Key) where
    abbrev after : History → StatefulSet
    after h = latest first (reconcile env config key h).1

    abbrev IsIn : String → ℕ → StatefulSet → Type 0
    IsIn = IsAt (revision env first keeps steady)

    upscale_round :
        (h : History) (k q : ℕ) (new : String)
        → IsIn State.canary_upscale k (latest first h)
        → IsScaled (latest first h)
        → (d : Decision) → decide_upscaled (started (latest first h)) (pos k) ≡ d
        → (d.statefulset.meta ≡ (latest first h).meta)
        → HasPartition d.statefulset (pos q)
        → d.new_status ≡ new
        → (new == State.canary_upscale) ≡ false
        → IsIn new q (after h)
    upscale_round h k q new a scaled d decision kept at_q status changes =
        let s = latest first h in
        let (left, e, at) =
          mutated (revision env first keeps steady) State.canary_upscale new k q s a in
        let begun = start env first keeps steady key h in
        let decides =
          upscale_decides s (pos k) begun scaled a.at_partition
          ∙ ap (λ x. (ok x, begun)) decision in
        let left_is =
          round_changes env first keeps steady config key h begun State.canary_upscale new k q d
            left refl refl changes a decides refl kept at_q status e in
        subst (IsIn new q) (sym left_is) at

    decide_zero :
        (s : StatefulSet)
        → decide_upscaled (started s) (pos 0) ≡ record (started s) { new_status = State.done }
    unfolding decide_upscaled
    decide_zero s = refl

    decide_positive :
        (s : StatefulSet) (k : ℕ)
        → let d = decide_upscaled (started s) (pos (suc k)) in
          (d.statefulset ≡ with_partition s (pos k)) × (d.new_status ≡ State.rollout)
    unfolding decide_upscaled
    decide_positive s k = ground arith

    -- In a steady cluster (the API server keeps what is written, the pods are ready and carry the
    -- update revision, there is no meltdown), a StatefulSet in the state CanaryUpscale at partition k
    -- that has all the replicas it wants, and these ready, and no watch time for the update, is in
    -- the state Done at partition 0 after k + 1 reconciles. The law is that of SetLastReconcile.
    pub upscale_completes :
        (k : ℕ) (h : History)
        → IsIn State.canary_upscale k (latest first h)
        → IsScaled (latest first h)
        → IsIn State.done zero (latest first (rounds env first keeps steady config key (suc k) h))
    unfolding rounds
    upscale_completes zero h a scaled =
        upscale_round h zero zero State.done a scaled _ (decide_zero (latest first h)) refl
          a.at_partition refl refl
    upscale_completes (suc k) h a scaled =
        let (moved, status) = decide_positive (latest first h) k in
        rollout_completes env first keeps steady config key k (reconcile env config key h).1 (
          upscale_round h (suc k) k State.rollout a scaled _ refl
            (ap (λ (t : StatefulSet). t.meta) moved)
            (ap (λ (t : StatefulSet). t.spec.update_strategy.rolling_update) moved) status refl)
