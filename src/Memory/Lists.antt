-- ===== src/Memory/Lists.antt =====
-- Deep copies of the items of a list, one after the other.
use quarks_statefulset.Prelude.{List, [], ◌∷◌, Option, some, refl}
use quarks_statefulset.Memory.Agree.{Grows-refl}
use quarks_statefulset.Memory.Deep.{
  both, map_some, IsDeep, pair_value, pair_copy, pair-IsDeep, via-IsDeep,
}

module _ {C A X : Type 0} (value : List C → A → Option X) where
  abbrev cons : X × List X → List X
  cons (x, xs) = x ∷ xs

  abbrev pub list_value : List C → List A → Option (List X)
  list_value h [] = some []
  list_value h (a ∷ items) = map_some cons (both (value h a) (list_value h items))

module _ {C A : Type 0} (copy : A → List C → A × List C) where
  unfoldable pub list_copy : List A → List C → List A × List C
  list_copy [] h = ([], h)
  list_copy (a ∷ items) h =
      let (a', h') = copy a h in let (items', h'') = list_copy items h' in (a' ∷ items', h'')

module _ {C A X : Type 0} (value : List C → A → Option X) (copy : A → List C → A × List C) where
  pub list-IsDeep :
      ((a : A) → IsDeep value copy a)
      → (items : List A) → IsDeep (list_value value) (list_copy copy) items
  unfolding list_copy
  list-IsDeep deep [] = record {
    grows = λ h. Grows-refl h;
    below = λ h h' x e k. e;
    fresh = λ h h' x e k. e;
  }
  list-IsDeep deep (a ∷ items) =
      via-IsDeep (pair_value value (list_value value)) (pair_copy copy (list_copy copy))
        (list_value value) (list_copy copy) (a, items) (a ∷ items) (λ (b, bs). b ∷ bs) (cons value)
        (λ h b. refl) (λ h. refl) (λ h. refl)
        (pair-IsDeep value copy (list_value value) (list_copy copy) a items (deep a)
          (list-IsDeep deep items))
