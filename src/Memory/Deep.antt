-- ===== src/Memory/Deep.antt =====
-- Deep copies: what a structure reads as, through its pointers, and a copy that keeps it.
use quarks_statefulset.Prelude.{
  List, length, Option, none, some, ◌≡◌, refl, sym, ap, ◌∙◌, arith, subst, some_injective,
}
use quarks_statefulset.Memory.Agree.{AgreeOn, Grows, Grows-trans, Grows-refl}

abbrev pub both : {X Y : Type 0} → Option X → Option Y → Option (X × Y)
both (some x) (some y) = some (x, y)
both _ _ = none

abbrev pub map_some : {X Y : Type 0} → (X → Y) → Option X → Option Y
map_some f none = none
map_some f (some x) = some (f x)

module _ {C A X : Type 0} where
  -- The structure `a`, read by `value` and copied by `copy`. Wherever it reads as `x`: it does so
  -- in each memory that agrees on what was there; copying only adds cells; and the copy reads as
  -- `x` in each memory that agrees on the cells that were added, whatever the older ones hold.
  pub record IsDeep (value : List C → A → Option X) (copy : A → List C → A × List C) (a : A)
      : Type 0 where
    pub grows : (h : List C) → Grows h (copy a h).1
    pub below :
        (h h' : List C) (x : X)
        → value h a ≡ some x
        → AgreeOn 0 (length h) h h'
        → value h' a ≡ some x
    pub fresh :
        (h h' : List C) (x : X)
        → value h a ≡ some x
        → AgreeOn (length h) (length (copy a h).1) (copy a h).1 h'
        → value h' (copy a h).0 ≡ some x

-- A type whose structures can all be deeply copied.
pub record DeepCopier (C A X : Type 0) : Type 0 where
  pub value : List C → A → Option X
  pub copy : A → List C → A × List C
  pub deep : (a : A) → IsDeep value copy a

both-some :
    {X Y : Type 0} (p : Option X) (q : Option Y) {z : X × Y}
    → both p q ≡ some z
    → (p ≡ some z.0) × (q ≡ some z.1)
both-some (some x) (some y) e = (cc e, cc e)
both-some (some x) none e = cc e
both-some none (some y) e = cc e
both-some none none e = cc e

map_some-some :
    {X Y : Type 0} (f : X → Y) (p : Option X) {y : Y}
    → map_some f p ≡ some y
    → (x : X) × (p ≡ some x) × (f x ≡ y)
map_some-some f none e = cc e
map_some-some f (some x) e = (x, refl, some_injective e)

module _ {C A : Type 0} where
  -- A value without pointers.
  abbrev pub plain_value : List C → A → Option A
  plain_value h a = some a

  abbrev pub plain_copy : A → List C → A × List C
  plain_copy a h = (a, h)

  pub plain-IsDeep : (a : A) → IsDeep plain_value plain_copy a
  plain-IsDeep a = record {
    grows = λ h. Grows-refl h;
    below = λ h h' x e k. e;
    fresh = λ h h' x e k. e;
  }

module _ {C A B X Y : Type 0} (value_a : List C → A → Option X)
    (value_b : List C → B → Option Y) where
  abbrev pub pair_value : List C → A × B → Option (X × Y)
  pair_value h (a, b) = both (value_a h a) (value_b h b)

module _ {C A B : Type 0} (copy_a : A → List C → A × List C)
    (copy_b : B → List C → B × List C) where
  -- One after the other.
  abbrev pub pair_copy : A × B → List C → (A × B) × List C
  pair_copy (a, b) h = let (a', h') = copy_a a h in let (b', h'') = copy_b b h' in ((a', b'), h'')

module _ {C A B X Y : Type 0} (value_a : List C → A → Option X) (copy_a : A → List C → A × List C)
    (value_b : List C → B → Option Y) (copy_b : B → List C → B × List C) where
  pub pair-IsDeep :
      (a : A) (b : B)
      → IsDeep value_a copy_a a
      → IsDeep value_b copy_b b
      → IsDeep (pair_value value_a value_b) (pair_copy copy_a copy_b) (a, b)
  pair-IsDeep a b da db = record {
    grows = λ h. Grows-trans (da.grows h) (db.grows (copy_a a h).1);
    below = λ h h' x e k.
        let (ea, eb) = both-some _ _ e in rw (da.below h h' x.0 ea k, db.below h h' x.1 eb k) refl;
    fresh = λ h h' x e k.
        let (ea, eb) = both-some _ _ e in
        let h1 : List C = (copy_a a h).1 in
        let ga = da.grows h in
        let gb = db.grows h1 in
        rw
          (
            da.fresh h h' x.0 ea
                (λ i low high. gb.keeps i (omega arith) high ∙ k i low (omega (arith, gb.longer))),
            db.fresh h1 h' x.1 (db.below h h1 x.1 eb ga.keeps)
                (λ i low high. k i (omega (arith, ga.longer)) high),
          )
          refl;
  }

module _ {C B X S Y : Type 0} (value : List C → B → Option X) (copy : B → List C → B × List C)
    (value_s : List C → S → Option Y) (copy_s : S → List C → S × List C) where
  -- A structure that is read and copied by way of a part of it.
  pub via-IsDeep :
      (b : B) (s : S) (put : B → S) (build : X → Y)
      → ((h : List C) (b' : B) → value_s h (put b') ≡ map_some build (value h b'))
      → ((h : List C) → value_s h s ≡ map_some build (value h b))
      → ((h : List C) → copy_s s h ≡ (put (copy b h).0, (copy b h).1))
      → IsDeep value copy b
      → IsDeep value_s copy_s s
  via-IsDeep b s put build reads reads_s copies d = record {
    grows = λ h. subst (Grows h) (sym (ap (λ r. r.1) (copies h))) (d.grows h);
    below = λ h h' y e k.
        let (x, ex, ey) = map_some-some build (value h b) (sym (reads_s h) ∙ e) in
        reads_s h' ∙ ap (map_some build) (d.below h h' x ex k) ∙ ap (λ z. some z) ey;
    fresh = λ h h' y e k.
        let (x, ex, ey) = map_some-some build (value h b) (sym (reads_s h) ∙ e) in
        ap (λ r. value_s h' r.0) (copies h)
        ∙ reads h' (copy b h).0
        ∙ ap (map_some build)
            (d.fresh h h' x ex (subst (λ r. AgreeOn (length h) (length r.1) r.1 h') (copies h) k))
        ∙ ap (λ z. some z) ey;
  }
