-- ===== src/Prelude/Tests.antt =====
-- Boolean tests, the conditional, and the decision of equality that `reflect.DeepEqual` makes.
use Prim.Native.Nat.{ℕ, compare, Ordering}
use Prim.Native.String.{String}
use mathlib.Core.Path.{◌≡◌, refl, sym}
use mathlib.Core.Logic.{◌≢◌, ◌⊎◌, inl, inr}
use mathlib.Core.Bool.{Bool, true, false}
use mathlib.Core.Option.{Option, none, some}
use text.Mathlib.Text.{◌==◌}
use text.Mathlib.TextEquality.{eq_iff}

abbrev pub ltb : ℕ → ℕ → Bool
ltb a b = elim (compare a b) [ Ordering.lt ↦ true | _ ↦ false ]

abbrev pub leb : ℕ → ℕ → Bool
leb a b = elim (compare a b) [ Ordering.gt ↦ false | _ ↦ true ]

abbrev pub eqb : ℕ → ℕ → Bool
eqb a b = elim (compare a b) [ Ordering.eq ↦ true | _ ↦ false ]

infix 1 if◌then◌else◌
abbrev pub if◌then◌else◌ {ℓ} : {A : Type ℓ} → Bool → A → A → A
if true then x else y = x
if false then x else y = y

-- To split on a computed value and keep the equation.
pub Bool-cases : (b : Bool) → (b ≡ true) ⊎ (b ≡ false)
Bool-cases true = inl refl
Bool-cases false = inr refl

pub Option-cases {ℓ} : {A : Type ℓ} (o : Option A) → (o ≡ none) ⊎ ((a : A) × (o ≡ some a))
Option-cases none = inl refl
Option-cases (some a) = inr (a, refl)

decide_by {ℓ} :
    {A : Type ℓ} (s t : A) (b : Bool) → (b ≡ true → s ≡ t) → (b ≡ false → s ≢ t) → Dec (s ≡ t)
decide_by s t true y n = yes (y refl)
decide_by s t false y n = no (n refl)

pub unequal : (s t : String) → (s == t) ≡ false → s ≢ t
unequal s t h e = cc (h, (eq_iff s t).1 e)

-- The test fails on texts that differ.
pub unequal_test : (s t : String) → t ≢ s → (s == t) ≡ false
unequal_test s t n = elim (Bool-cases (s == t)) [
  | inl e ↦ absurd (n (sym ((eq_iff s t).0 e)))
  | inr e ↦ e
]

unfoldable pub String_discrete : Discrete String
unfolding decide_by unequal
String_discrete s t = decide_by s t (s == t) (eq_iff s t).0 (unequal s t)

-- `reflect.DeepEqual`, at a type whose equality is decided.
abbrev pub deep_equal {ℓ} : {A : Type ℓ} → Discrete A → A → A → Bool
deep_equal dec a b = elim (dec a b) [ yes p ↦ true | no p ↦ false ]

pub deep_equal_of_eq {ℓ} :
    {A : Type ℓ} (dec : Discrete A) (a b : A) → a ≡ b → deep_equal dec a b ≡ true
deep_equal_of_eq dec a b e =
    elim (dec a b) as (λ d. elim d as (λ d. Bool) [ yes p ↦ true | no p ↦ false ] ≡ true) [
      | yes p ↦ refl
      | no p ↦ absurd (p e)
    ]

pub deep_equal_ne {ℓ} :
    {A : Type ℓ} (dec : Discrete A) (a b : A) → a ≢ b → deep_equal dec a b ≡ false
deep_equal_ne dec a b n =
    elim (dec a b) as (λ d. elim d as (λ d. Bool) [ yes p ↦ true | no p ↦ false ] ≡ false) [
      | yes p ↦ absurd (n p)
      | no p ↦ refl
    ]

pub deep_equal_true {ℓ} :
    {A : Type ℓ} (dec : Discrete A) (a b : A) → deep_equal dec a b ≡ true → a ≡ b
deep_equal_true dec a b h =
    elim (dec a b) as (λ d. elim d as (λ d. Bool) [ yes p ↦ true | no p ↦ false ] ≡ true → a ≡ b) [
      | yes p ↦ λ e. p
      | no p ↦ λ e. absurd (cc e)
    ]
      h

pub deep_equal_false {ℓ} :
    {A : Type ℓ} (dec : Discrete A) (a b : A) → deep_equal dec a b ≡ false → a ≢ b
deep_equal_false dec a b h =
    elim (dec a b) as (λ d. elim d as (λ d. Bool) [ yes p ↦ true | no p ↦ false ] ≡ false → a ≢ b) [
      | yes p ↦ λ e. absurd (cc e)
      | no p ↦ λ e. p
    ]
      h
