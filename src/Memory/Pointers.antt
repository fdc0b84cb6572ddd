-- ===== src/Memory/Pointers.antt =====
-- Pointers to cells, and copies of what they point to.
use quarks_statefulset.Prelude.{
  ℕ, List, [], ◌∷◌, ◌++◌, length, length-append, get_elem?, Option, none, some, ◌≡◌, refl, sym, ap,
  ◌∙◌, ◌<◌, arith, Option-cases, inl, inr,
}
use quarks_statefulset.Memory.Agree.{
  AgreeOn, Grows, Grows-refl, Grows-trans, Grows-append, get_elem?-append, get_elem?-last,
  get_elem?-bound,
}
use quarks_statefulset.Memory.Deep.{map_some, IsDeep}

-- One kind of content of a cell.
pub record Cells (C A : Type 0) : Type 0 where
  pub put : A → C
  pub take : C → Option A
  pub take-put : (a : A) → take (put a) ≡ some a

module _ {C A : Type 0} (cells : Cells C A) where
  abbrev taken : Option C → Option A
  taken none = none
  taken (some c) = cells.take c

  abbrev pub read : List C → ℕ → Option A
  read h i = taken (get_elem? h i)

  module _ {X : Type 0} (value : List C → A → Option X) where
    abbrev pub value_at : List C → Option A → Option (Option X)
    value_at h none = none
    value_at h (some a) = map_some some (value h a)

    -- A nil pointer reads as none; one that is not to a cell of its kind does not read.
    abbrev pub pointer_value : List C → Option ℕ → Option (Option X)
    pointer_value h none = some none
    pointer_value h (some i) = value_at h (read h i)

  module _ (copy : A → List C → A × List C) where
    abbrev pub copy_at : ℕ → Option A → List C → Option ℕ × List C
    copy_at i none h = (some i, h)
    copy_at i (some a) h = let (a', h') = copy a h in (some (length h'), h' ++ cells.put a' ∷ [])

    -- `if in.F != nil { *out = new(T); ... }`: a nil pointer stays nil, another becomes one to a
    -- new cell, which is added when its content is made.
    unfoldable pub pointer_copy : Option ℕ → List C → Option ℕ × List C
    pointer_copy none h = (none, h)
    pointer_copy (some i) h = copy_at i (read h i) h

module _ {C A X : Type 0} (cells : Cells C A) (value : List C → A → Option X)
    (copy : A → List C → A × List C) (deep : (a : A) → IsDeep value copy a) where
  taken-bound : (h : List C) (i : ℕ) {a : A} → read cells h i ≡ some a → i < length h
  taken-bound h i e = elim (Option-cases (get_elem? h i)) [
    | inl missing ↦ absurd (cc (ap (taken cells) missing, e))
    | inr (c, at) ↦ get_elem?-bound h i at
  ]

  Grows-copy_at : (i : ℕ) (o : Option A) (h : List C) → Grows h (copy_at cells copy i o h).1
  Grows-copy_at i none h = Grows-refl h
  Grows-copy_at i (some a) h =
      Grows-trans ((deep a).grows h) (Grows-append (copy a h).1 (cells.put (copy a h).0 ∷ []))

  below_at :
      (i : ℕ) (o : Option A) (h h' : List C) (x : Option X)
      → read cells h i ≡ o
      → value_at cells value h o ≡ some x
      → AgreeOn 0 (length h) h h'
      → pointer_value cells value h' (some i) ≡ some x
  below_at i none h h' x e v k = cc v
  below_at i (some a) h h' x e v k =
      let same : read cells h' i ≡ some a =
        ap (taken cells) (sym (k i (omega arith) (taken-bound h i e))) ∙ e in
      ap (value_at cells value h') same ∙ inner (value h a) refl v
    where
      inner :
          (p : Option X)
          → value h a ≡ p
          → map_some some p ≡ some x
          → map_some some (value h' a) ≡ some x
      inner none ep q = cc q
      inner (some y) ep q = ap (map_some some) ((deep a).below h h' y ep k) ∙ q

  fresh_at :
      (i : ℕ) (o : Option A) (h h' : List C) (x : Option X)
      → value_at cells value h o ≡ some x
      → AgreeOn (length h) (length (copy_at cells copy i o h).1) (copy_at cells copy i o h).1 h'
      → pointer_value cells value h' (copy_at cells copy i o h).0 ≡ some x
  fresh_at i none h h' x v k = cc v
  fresh_at i (some a) h h' x v k =
      ap (λ o. value_at cells value h' (taken cells o))
        (sym (k (length h1) (d.longer) here) ∙ get_elem?-last h1 new)
      ∙ ap (value_at cells value h') (cells.take-put (copy a h).0)
      ∙ inner (value h a) refl v
    where
      h1 : List C
      h1 = (copy a h).1

      new : C
      new = cells.put (copy a h).0

      d : Grows h h1
      d = (deep a).grows h

      here : length h1 < length (h1 ++ new ∷ [])
      here = omega (arith, length-append {0} h1 (new ∷ []))

      inner :
          (p : Option X)
          → value h a ≡ p
          → map_some some p ≡ some x
          → map_some some (value h' (copy a h).0) ≡ some x
      inner none ep q = cc q
      inner (some y) ep q =
          ap (map_some some) (
            (deep a).fresh h h' y ep λ j low high.
              sym (get_elem?-append h1 (new ∷ []) j high) ∙ k j low (omega (arith, high, here)))
          ∙ q

  pub pointer-IsDeep :
      (p : Option ℕ) → IsDeep (pointer_value cells value) (pointer_copy cells copy) p
  unfolding pointer_copy
  pointer-IsDeep none = record {
    grows = λ h. Grows-refl h;
    below = λ h h' x e k. e;
    fresh = λ h h' x e k. e;
  }
  pointer-IsDeep (some i) = record {
    grows = λ h. Grows-copy_at i (read cells h i) h;
    below = λ h h' x e k. below_at i (read cells h i) h h' x refl e k;
    fresh = λ h h' x e k. fresh_at i (read cells h i) h h' x e k;
  }
