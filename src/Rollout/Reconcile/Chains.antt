-- ===== src/Rollout/Reconcile/Chains.antt =====
-- How often the switch of Reconcile can change the state or the partition of a rollout.
use quarks_statefulset.Prelude.{
  ℕ, zero, suc, ◌+◌, ◌≤◌, ◌<◌, String, false, ◌==◌, ◌||◌, ℤ, pos, dec32, ◌≡◌, ◌≢◌, refl, sym, ap,
  ◌≤ℤ◌, unequal, ◌∙◌, subst, ok, some_injective, arith, inl, inr, ◌⊎◌, if◌then◌else◌,
}
use quarks_statefulset.Names.State
use quarks_statefulset.Kube.Calls.{History}
use quarks_statefulset.Kube.Env.{Env}
use quarks_statefulset.Rollout.Update.Writes.{HasPartition}
use quarks_statefulset.Rollout.Reconcile.{Decision, switch}
use quarks_statefulset.Rollout.Reconcile.Diagram.{
  Moves, stay, start_canary, start_upscale, start_upscale_at_zero, upscaled, upscale_done,
  canary_failed, advance, complete,
}
use quarks_statefulset.Rollout.Reconcile.Steps.{switch-Follows}

-- In some environment the switch takes a StatefulSet in the one state and at the one partition to the
-- other.
pub record Decides (status : String) (p : ℤ) (status' : String) (p' : ℤ) : Type 0 where
  pub env : Env
  pub before : Decision
  pub after : Decision
  pub calls : History
  pub in_state : before.new_status ≡ status
  pub at_partition : HasPartition before.statefulset p
  pub decided : (switch env status before calls).0 ≡ ok after
  pub new_state : after.new_status ≡ status'
  pub new_partition : HasPartition after.statefulset p'

-- So many changes, one after the other.
pub data Chain (status : String) (p : ℤ) : ℕ → String → ℤ → Type 0 where
  none_yet : Chain status p zero status p
  change :
      {k : ℕ} {status' status'' : String} {p' p'' : ℤ}
      → Chain status p k status' p'
      → (status'' ≢ status') ⊎ (p'' ≢ p')
      → Decides status' p' status'' p''
      → Chain status p (suc k) status'' p''

-- At least as many changes as can follow.
abbrev weight : String → ℕ → ℕ
weight status n =
    if status == State.pending
    then n + 2
    else if status == State.canary || (status == State.canary_upscale) || (status == State.rollout)
    then n + 1
    else 0

weight-le : (status : String) (n : ℕ) → weight status n ≤ n + 2
weight-le status n = ground arith

Decides-Moves :
    {status status' : String} {p p' : ℤ} → Decides status p status' p' → Moves status p status' p'
Decides-Moves {status} {status'} {p} {p'} s =
    let f =
      (switch-Follows s.env s.before p s.at_partition status s.in_state).post s.calls s.after
        s.decided in
    subst (λ q. Moves status p status' q)
      (some_injective (some_injective (sym f.moved ∙ s.new_partition)))
      (subst (λ t. Moves status p t f.partition) s.new_state f.step)

-- A partition that a rollout may be at: not negative, and positive before the first pod.
abbrev pub IsSound : String → ℕ → Type 0
IsSound status n = status ≡ State.pending → 0 < n

-- What one change comes to.
abbrev Lowers : String → ℕ → String → ℤ → Type 0
Lowers status n status' p' =
    (n' : ℕ) × (p' ≡ pos n') × (n' ≤ n) × (weight status' n' < weight status n) × IsSound status' n'

nonzero : (n : ℕ) → pos n ≢ pos 0 → (m : ℕ) × (n ≡ suc m)
nonzero zero h = absurd (h refl)
nonzero (suc m) h = (m, refl)

positive : (n : ℕ) → 0 < n → (m : ℕ) × (n ≡ suc m)
positive zero h = absurd (omega arith)
positive (suc m) h = (m, refl)

lowered :
    {status status' : String} {p' : ℤ} (from to : String) (n n' : ℕ)
    → status ≡ from
    → status' ≡ to
    → p' ≡ pos n'
    → n' ≤ n
    → weight to n' < weight from n
    → (to == State.pending) ≡ false
    → Lowers status n status' p'
lowered from to n n' e e' q le lt started =
    (n', q, le, rw (e, e') lt, λ again. absurd (unequal to State.pending started (sym e' ∙ again)))

dec_to : {p p' : ℤ} (n m : ℕ) → p ≡ pos n → p' ≡ dec32 p → n ≡ suc m → p' ≡ pos m
dec_to n m at e same = e ∙ ap dec32 (at ∙ ap pos same)

pub Moves-Lowers :
    {status status' : String} {p p' : ℤ} (n : ℕ)
    → p ≡ pos n
    → IsSound status n
    → (status' ≢ status) ⊎ (p' ≢ p)
    → Moves status p status' p'
    → Lowers status n status' p'
Moves-Lowers n at sound (inl other) (stay a b) = absurd (other a)
Moves-Lowers n at sound (inr other) (stay a b) = absurd (other b)
Moves-Lowers n at sound changed (start_canary a b c) =
    let (m, e) = positive n (sound a) in
    lowered State.pending State.canary n m a b (dec_to n m at c e) (omega (arith, e))
      (omega (arith, e)) refl
Moves-Lowers n at sound changed (start_upscale a b c d) =
    let (m, e) = positive n (sound a) in
    lowered State.pending State.canary_upscale n m a b (dec_to n m at d e) (omega (arith, e))
      (omega (arith, e)) refl
Moves-Lowers n at sound changed (start_upscale_at_zero a b c d) =
    lowered State.pending State.canary_upscale n n a b (d ∙ at) (omega arith) (omega arith) refl
Moves-Lowers n at sound changed (upscaled a b c d) =
    let (m, e) = nonzero n (λ z. c (at ∙ z)) in
    lowered State.canary_upscale State.rollout n m a b (dec_to n m at d e) (omega (arith, e))
      (omega (arith, e)) refl
Moves-Lowers n at sound changed (upscale_done a b c d) =
    lowered State.canary_upscale State.done n n a b (d ∙ at) (omega arith) (omega arith) refl
Moves-Lowers n at sound changed (canary_failed a b c) =
    lowered State.canary State.failed n n a b (c ∙ at) (omega arith) (omega arith) refl
Moves-Lowers n at sound changed (advance (inl a) b c d) =
    let (m, e) = nonzero n (λ z. c (at ∙ z)) in
    lowered State.canary State.rollout n m a b (dec_to n m at d e) (omega (arith, e))
      (omega (arith, e)) refl
Moves-Lowers n at sound changed (advance (inr a) b c d) =
    let (m, e) = nonzero n (λ z. c (at ∙ z)) in
    lowered State.rollout State.rollout n m a b (dec_to n m at d e) (omega (arith, e))
      (omega (arith, e)) refl
Moves-Lowers n at sound changed (complete (inl a) b c d) =
    lowered State.canary State.done n n a b (d ∙ at) (omega arith) (omega arith) refl
Moves-Lowers n at sound changed (complete (inr a) b c d) =
    lowered State.rollout State.done n n a b (d ∙ at) (omega arith) (omega arith) refl

-- Where a chain has come to.
abbrev Within : String → ℕ → ℕ → String → ℤ → Type 0
Within status n k status' p' =
    (n' : ℕ) × (p' ≡ pos n')
    × (n' ≤ n)
    × (k + weight status' n' ≤ weight status n)
    × IsSound status' n'

further :
    (status : String) {status' status'' : String} {p' p'' : ℤ} (n k : ℕ)
    → Within status n k status' p'
    → (status'' ≢ status') ⊎ (p'' ≢ p')
    → Decides status' p' status'' p''
    → Within status n (suc k) status'' p''
further status n k (n', at, le, weighs, sound) changed s =
    let (n'', at', le', lighter, sound') = Moves-Lowers n' at sound changed (Decides-Moves s) in
    (n'', at', omega (arith, le, le'), omega (arith, weighs, lighter), sound')

Chain-Within :
    (status : String) (n : ℕ) {k : ℕ} {status' : String} {p' : ℤ}
    → IsSound status n
    → Chain status (pos n) k status' p'
    → Within status n k status' p'
Chain-Within status n sound none_yet = (n, refl, omega arith, omega arith, sound)
Chain-Within status n sound (change {k} chain changed s) =
    further status n k (Chain-Within status n sound chain) changed s

-- Whatever the environments answer, from a partition n that is positive where the rollout is
-- Pending, the switch changes the state or the partition at most n + 2 times in a row, and the
-- partition stays between 0 and n.
pub chain_bounded :
    (status : String) (n : ℕ) {k : ℕ} {status' : String} {p' : ℤ}
    → IsSound status n
    → Chain status (pos n) k status' p'
    → (k ≤ n + 2) × (pos 0 ≤ℤ p') × (p' ≤ℤ pos n)
chain_bounded status n sound chain =
    let (n', at, le, weighs, sound') = Chain-Within status n sound chain in
    (omega (arith, weighs, weight-le status n), rw at (omega arith), rw at (omega (arith, le)))
