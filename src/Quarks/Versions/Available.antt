-- ===== src/Quarks/Versions/Available.antt =====
-- GetMaxAvailableVersion (v1alpha1/types.go), beside what a greatest version is.
use quarks_statefulset.Prelude.{
  Bool, true, false, List, [], ◌∷◌, ℕ, suc, ℤ, ltb_ℤ, ◌≤ℤ◌, ◌≡◌, refl, sym, ◌⊎◌, inl, inr, All,
  some, get_elem?, arith, Bool-cases,
}
use quarks_statefulset.Quarks.Versions.{get_max_available_version}

abbrev pub IsBounded : ℤ → ℤ × Bool → Type 0
IsBounded m (version, true) = version ≤ℤ m
IsBounded m (version, false) = Unit

-- The number is at least the one to start from and every available version, and one of them.
pub record IsGreatest (start : ℤ) (versions : List (ℤ × Bool)) (m : ℤ) : Type 0 where
  pub from_start : start ≤ℤ m
  pub bounded : All (IsBounded m) versions
  pub attained : (m ≡ start) ⊎ ((i : ℕ) × (get_elem? versions i ≡ some (m, true)))

-- GetMaxAvailableVersion over the versions, from a number (0 in the code), gives the greatest of
-- that number and the available versions.
pub get_max_available_version-IsGreatest :
    (versions : List (ℤ × Bool)) (start : ℤ)
    → IsGreatest start versions (get_max_available_version versions start)
unfolding get_max_available_version
get_max_available_version-IsGreatest [] start = record {
  from_start = omega arith;
  bounded = tt;
  attained = inl refl;
}
get_max_available_version-IsGreatest ((version, false) ∷ versions) start =
    let ih = get_max_available_version-IsGreatest versions start in
    record { from_start = ih.from_start; bounded = (tt, ih.bounded); attained = later ih.attained }
  where
    later :
        {m : ℤ}
        → (m ≡ start) ⊎ ((i : ℕ) × (get_elem? versions i ≡ some (m, true)))
        → (m ≡ start) ⊎ ((i : ℕ) × (get_elem? ((version, false) ∷ versions) i ≡ some (m, true)))
    later (inl e) = inl e
    later (inr (i, e)) = inr (suc i, e)
get_max_available_version-IsGreatest ((version, true) ∷ versions) start =
    elim (Bool-cases (ltb_ℤ start version)) [
      | inl higher ↦
          rw higher (raised higher (get_max_available_version-IsGreatest versions version))
      | inr lower ↦ rw lower (kept lower (get_max_available_version-IsGreatest versions start))
    ]
  where
    raised :
        {m : ℤ}
        → ltb_ℤ start version ≡ true
        → IsGreatest version versions m
        → IsGreatest start ((version, true) ∷ versions) m
    raised higher g = record {
      from_start = ground (arith, higher, g.from_start);
      bounded = (g.from_start, g.bounded);
      attained = elim g.attained [
        | inl e ↦ inr (0, (λ i. some (sym e i, true)))
        | inr (i, e) ↦ inr (suc i, e)
      ];
    }

    kept :
        {m : ℤ}
        → ltb_ℤ start version ≡ false
        → IsGreatest start versions m
        → IsGreatest start ((version, true) ∷ versions) m
    kept lower g = record {
      from_start = g.from_start;
      bounded = (ground (arith, lower, g.from_start), g.bounded);
      attained = elim g.attained [ inl e ↦ inl e | inr (i, e) ↦ inr (suc i, e) ];
    }
