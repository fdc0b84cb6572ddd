-- ===== src/Memory/Agree.antt =====
-- Memories as lists of cells, each at its place, and where two of them agree.
use quarks_statefulset.Prelude.{
  ℕ, zero, suc, ◌≤◌, ◌<◌, List, [], ◌∷◌, ◌++◌, length, length-append, get_elem?, some, ◌≡◌, refl,
  sym, ◌∙◌, arith,
}

module _ {C : Type 0} where
  -- From `low` on and below `high`, both hold the same.
  abbrev pub AgreeOn : ℕ → ℕ → List C → List C → Type 0
  AgreeOn low high h h' = (i : ℕ) → low ≤ i → i < high → get_elem? h i ≡ get_elem? h' i

  -- `h'` has all cells of `h` where they were.
  pub record Grows (h h' : List C) : Type 0 where
    pub longer : length h ≤ length h'
    pub keeps : AgreeOn 0 (length h) h h'

  pub Grows-refl : (h : List C) → Grows h h
  Grows-refl h = record { longer = omega arith; keeps = λ i a b. refl }

  pub Grows-trans : {h h' h'' : List C} → Grows h h' → Grows h' h'' → Grows h h''
  Grows-trans a b = record {
    longer = omega (arith, a.longer, b.longer);
    keeps = λ i low high. a.keeps i low high ∙ b.keeps i low (omega (arith, a.longer));
  }

  pub get_elem?-append :
      (h k : List C) (i : ℕ) → i < length h → get_elem? (h ++ k) i ≡ get_elem? h i
  get_elem?-append [] k i b = elim b [ ]
  get_elem?-append (c ∷ h) k zero b = refl
  get_elem?-append (c ∷ h) k (suc i) b = get_elem?-append h k i (omega (arith, b))

  pub get_elem?-last : (h : List C) (c : C) → get_elem? (h ++ c ∷ []) (length h) ≡ some c
  get_elem?-last [] c = refl
  get_elem?-last (d ∷ h) c = get_elem?-last h c

  pub get_elem?-bound : (h : List C) (i : ℕ) {c : C} → get_elem? h i ≡ some c → i < length h
  get_elem?-bound [] i e = cc e
  get_elem?-bound (c ∷ h) zero e = omega arith
  get_elem?-bound (c ∷ h) (suc i) e = omega (arith, get_elem?-bound h i e)

  pub Grows-append : (h k : List C) → Grows h (h ++ k)
  Grows-append h k = record {
    longer = omega (arith, length-append {0} h k);
    keeps = λ i low high. sym (get_elem?-append h k i high);
  }
