-- ===== src/Rollout/Reconcile/Steps.antt =====
-- The switch of Reconcile against the state diagram (statefulset_rollout_reconciler.go).
use quarks_statefulset.Prelude.{
  String, Bool, true, false, ℤ, dec32, ◌==◌, ◌≡◌, refl, ap, ◌∙◌, eq_iff, arith, Bool-cases, inl,
  inr, ◌⊎◌,
}
use quarks_statefulset.Names.State
use quarks_statefulset.Kube.Calls.{Returns, Returns-pure, Returns-bind, Returns-any}
use quarks_statefulset.Kube.Env.{Env}
use quarks_statefulset.Rollout.Update.Writes.{HasPartition}
use quarks_statefulset.Rollout.Reconcile.{
  Decision, switch, canary_case, rollout_case, pending_case, cap, when_timed_out, start,
  requeue_after,
}
use quarks_statefulset.Rollout.Reconcile.Diagram.{
  Follows, canary_failed, start_canary, stays, decide_rollout-Follows, upscale-Follows,
  canary_upscale_case-Follows, Returns-partition_of,
}

-- The cap on the time to the next reconcile does not touch the StatefulSet.
cap_keeps :
    (d : Decision) → ((cap d).statefulset ≡ d.statefulset) × ((cap d).new_status ≡ d.new_status)
unfolding cap
cap_keeps d = ground arith

Follows-cap :
    (status : String) (d e : Decision) (p : ℤ) → Follows status (cap d) e p → Follows status d e p
Follows-cap status d e p f = record {
  partition = f.partition;
  moved = f.moved;
  step = f.step;
  kept_meta = f.kept_meta ∙ ap (λ s. s.meta) (cap_keeps d).0;
}

module _ (env : Env) (d : Decision) (p : ℤ) (known : HasPartition d.statefulset p) where
  rollout_case-Follows :
      (status : String)
      → (status ≡ State.canary) ⊎ (status ≡ State.rollout)
      → d.new_status ≡ status
      → Returns (λ e. Follows status d e p) (rollout_case env d)
  unfolding rollout_case
  rollout_case-Follows status two same =
      let known' : HasPartition (cap d).statefulset p = rw (cap_keeps d).0 known in
      Returns-bind _ _ (Returns-any _) λ ready _.
        Returns-bind _ _ (Returns-partition_of (cap d).statefulset p known') λ q e. Returns-pure _ (
          rw e (
            Follows-cap status d _ p
              (decide_rollout-Follows (cap d) p known' status two ((cap_keeps d).1 ∙ same) ready)))

  when_timed_out-Follows :
      d.new_status ≡ State.canary
      → (timed_out : Bool)
      → Returns (λ e. Follows State.canary d e p) (when_timed_out env timed_out d)
  unfolding when_timed_out
  when_timed_out-Follows same true = Returns-pure _ (record {
    partition = p;
    moved = known;
    step = canary_failed refl refl refl;
    kept_meta = refl;
  })
  when_timed_out-Follows same false = rollout_case-Follows State.canary (inl refl) same

  canary_case-Follows :
      d.new_status ≡ State.canary → Returns (λ e. Follows State.canary d e p) (canary_case env d)
  unfolding canary_case
  canary_case-Follows same =
      Returns-bind _ _ (Returns-any _) λ left _. when_timed_out-Follows same _

  start-Follows :
      d.new_status ≡ State.pending
      → (fewer : Bool) → Returns (λ e. Follows State.pending d e p) (start env fewer d)
  unfolding start
  start-Follows same true = Returns-bind _ _ (Returns-partition_of d.statefulset p known) λ q e.
      Returns-bind _ _ (Returns-any _)
        λ left _. Returns-pure _ (rw e (requeued (upscale-Follows d p known same)))
    where
      requeued :
          {e : Decision} {left : ℤ}
          → Follows State.pending d e p
          → Follows State.pending d (requeue_after e left) p
      requeued f = record {
        partition = f.partition;
        moved = f.moved;
        step = f.step;
        kept_meta = f.kept_meta;
      }
  start-Follows same false = Returns-bind _ _ (Returns-any _) λ left _.
      Returns-bind _ _ (Returns-partition_of d.statefulset p known) λ q e. Returns-pure _ (record {
        partition = dec32 q;
        moved = refl;
        step = start_canary refl refl (ap dec32 e);
        kept_meta = refl;
      })

  pending_case-Follows :
      d.new_status ≡ State.pending → Returns (λ e. Follows State.pending d e p) (pending_case env d)
  unfolding pending_case
  pending_case-Follows same = Returns-bind _ _ (Returns-any _) λ replicas _. start-Follows same _

  -- With a StatefulSet at a known partition, the switch on the state, where it returns, gives a state
  -- and a partition that the state diagram has in one step from those given, and keeps the object's
  -- metadata.
  pub switch-Follows :
      (status : String)
      → d.new_status ≡ status
      → Returns (λ e. Follows status d e p) (switch env status d)
  unfolding switch
  switch-Follows status same = elim (Bool-cases (status == State.canary_upscale)) [
    | inl b ↦
        let e = (eq_iff status State.canary_upscale).0 b in
        rw e (canary_upscale_case-Follows d p known (same ∙ e))
    | inr b ↦ rw b (elim (Bool-cases (status == State.canary)) [
      | inl c ↦ let e = (eq_iff status State.canary).0 c in rw e (canary_case-Follows (same ∙ e))
      | inr c ↦ rw c (elim (Bool-cases (status == State.rollout)) [
        | inl r ↦
            let e = (eq_iff status State.rollout).0 r in
            rw e (rollout_case-Follows State.rollout (inr refl) (same ∙ e))
        | inr r ↦ rw r (elim (Bool-cases (status == State.pending)) [
          | inl n ↦
              let e = (eq_iff status State.pending).0 n in rw e (pending_case-Follows (same ∙ e))
          | inr n ↦ rw n (Returns-pure d (stays status d p same known))
        ])
      ])
    ])
  ]
