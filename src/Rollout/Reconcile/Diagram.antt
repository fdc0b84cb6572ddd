-- ===== src/Rollout/Reconcile/Diagram.antt =====
-- The state diagram of a rollout, and the decisions of Reconcile (statefulset_rollout_reconciler.go)
-- that need no environment.
use quarks_statefulset.Prelude.{
  String, Bool, true, false, ℤ, pos, ltb_ℤ, eqb_ℤ, dec32, ◌≡◌, ◌≢◌, refl, arith, Bool-cases, inl,
  inr, ◌⊎◌,
}
use quarks_statefulset.Names.State
use quarks_statefulset.Kube.Types.{StatefulSet}
use quarks_statefulset.Kube.Calls.{◌>>=◌, Returns, Returns-pure, Returns-bind, Returns-any}
use quarks_statefulset.Rollout.Pods.{partition_of}
use quarks_statefulset.Rollout.Update.Writes.{HasPartition}
use quarks_statefulset.Rollout.Reconcile.{
  Decision, canary_upscale_case, decide_upscaled, when_scaled, decide_rollout, upscale,
}

-- From a state and a partition to the next: at most one step of the partition, and downwards.
pub data Moves (status : String) (p : ℤ) (status' : String) (p' : ℤ) : Type 0 where
  stay : status' ≡ status → p' ≡ p → Moves status p status' p'
  start_canary :
      status ≡ State.pending → status' ≡ State.canary → p' ≡ dec32 p → Moves status p status' p'
  start_upscale :
      status ≡ State.pending
      → status' ≡ State.canary_upscale
      → ltb_ℤ (pos 0) p ≡ true
      → p' ≡ dec32 p
      → Moves status p status' p'
  start_upscale_at_zero :
      status ≡ State.pending
      → status' ≡ State.canary_upscale
      → ltb_ℤ (pos 0) p ≡ false
      → p' ≡ p
      → Moves status p status' p'
  upscaled :
      status ≡ State.canary_upscale
      → status' ≡ State.rollout
      → p ≢ pos 0
      → p' ≡ dec32 p
      → Moves status p status' p'
  upscale_done :
      status ≡ State.canary_upscale
      → status' ≡ State.done
      → p ≡ pos 0
      → p' ≡ p
      → Moves status p status' p'
  canary_failed :
      status ≡ State.canary → status' ≡ State.failed → p' ≡ p → Moves status p status' p'
  advance :
      (status ≡ State.canary) ⊎ (status ≡ State.rollout)
      → status' ≡ State.rollout
      → p ≢ pos 0
      → p' ≡ dec32 p
      → Moves status p status' p'
  complete :
      (status ≡ State.canary) ⊎ (status ≡ State.rollout)
      → status' ≡ State.done
      → p ≡ pos 0
      → p' ≡ p
      → Moves status p status' p'

-- The decision keeps all of the StatefulSet but its partition.
pub record Follows (status : String) (d d' : Decision) (p : ℤ) : Type 0 where
  pub partition : ℤ
  pub moved : HasPartition d'.statefulset partition
  pub step : Moves status p d'.new_status partition
  pub kept_meta : d'.statefulset.meta ≡ d.statefulset.meta

pub Returns-partition_of :
    (s : StatefulSet) (p : ℤ) → HasPartition s p → Returns (λ q. q ≡ p) (partition_of s)
unfolding partition_of ◌>>=◌
Returns-partition_of s p known = record { post = λ h a e. ground (arith, known) }

eqb_ℤ-zero : (p : ℤ) → eqb_ℤ p (pos 0) ≡ true → p ≡ pos 0
eqb_ℤ-zero p h = ground arith

eqb_ℤ-nonzero : (p : ℤ) → eqb_ℤ p (pos 0) ≡ false → p ≢ pos 0
eqb_ℤ-nonzero p h e = ground arith

pub stays :
    (status : String) (d : Decision) (p : ℤ)
    → d.new_status ≡ status
    → HasPartition d.statefulset p
    → Follows status d d p
stays status d p same known = record {
  partition = p;
  moved = known;
  step = stay same refl;
  kept_meta = refl;
}

module _ (d : Decision) (p : ℤ) (known : HasPartition d.statefulset p) where
  decide_upscaled-Follows :
      d.new_status ≡ State.canary_upscale → Follows State.canary_upscale d (decide_upscaled d p) p
  unfolding decide_upscaled
  decide_upscaled-Follows same = elim (Bool-cases (eqb_ℤ p (pos 0))) [
    | inl z ↦ rw z (record {
      partition = p;
      moved = known;
      step = upscale_done refl refl (eqb_ℤ-zero p z) refl;
      kept_meta = refl;
    })
    | inr z ↦ rw z (record {
      partition = dec32 p;
      moved = refl;
      step = upscaled refl refl (eqb_ℤ-nonzero p z) refl;
      kept_meta = refl;
    })
  ]

  pub decide_rollout-Follows :
      (status : String)
      → (status ≡ State.canary) ⊎ (status ≡ State.rollout)
      → d.new_status ≡ status
      → (ready : Bool) → Follows status d (decide_rollout d ready p) p
  unfolding decide_rollout
  decide_rollout-Follows status two same true = elim (Bool-cases (eqb_ℤ p (pos 0))) [
    | inl z ↦ rw z (record {
      partition = p;
      moved = known;
      step = complete two refl (eqb_ℤ-zero p z) refl;
      kept_meta = refl;
    })
    | inr z ↦ rw z (record {
      partition = dec32 p;
      moved = refl;
      step = advance two refl (eqb_ℤ-nonzero p z) refl;
      kept_meta = refl;
    })
  ]
  decide_rollout-Follows status two same false = elim (Bool-cases (eqb_ℤ p (pos 0))) [
    | inl z ↦ rw z (stays status d p same known)
    | inr z ↦ rw z (stays status d p same known)
  ]

  pub upscale-Follows : d.new_status ≡ State.pending → Follows State.pending d (upscale d p) p
  unfolding upscale
  upscale-Follows same = elim (Bool-cases (ltb_ℤ (pos 0) p)) [
    | inl z ↦ rw z (record {
      partition = dec32 p;
      moved = refl;
      step = start_upscale refl refl z refl;
      kept_meta = refl;
    })
    | inr z ↦ rw z (record {
      partition = p;
      moved = known;
      step = start_upscale_at_zero refl refl z refl;
      kept_meta = refl;
    })
  ]

  when_scaled-Follows :
      d.new_status ≡ State.canary_upscale
      → (scaled : Bool) → Returns (λ e. Follows State.canary_upscale d e p) (when_scaled scaled d)
  unfolding when_scaled
  when_scaled-Follows same true =
      Returns-bind _ _ (Returns-partition_of d.statefulset p known)
        λ q e. Returns-pure _ (rw e (decide_upscaled-Follows same))
  when_scaled-Follows same false = Returns-pure d (stays State.canary_upscale d p same known)

  pub canary_upscale_case-Follows :
      d.new_status ≡ State.canary_upscale
      → Returns (λ e. Follows State.canary_upscale d e p) (canary_upscale_case d)
  unfolding canary_upscale_case
  canary_upscale_case-Follows same =
      Returns-bind _ _ (Returns-any _) λ replicas _. when_scaled-Follows same _
