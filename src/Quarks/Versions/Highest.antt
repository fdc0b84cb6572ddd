-- ===== src/Quarks/Versions/Highest.antt =====
-- What GetMaxStatefulSetVersion finds, against a description that does not go round by round.
use quarks_statefulset.Prelude.{
  Bool, true, false, List, [], ◌∷◌, ◌++◌, ℤ, pos, ltb_ℤ, eqb_ℤ, ◌≤ℤ◌, ◌<ℤ◌, ◌≡◌, refl, sym, ap,
  subst, ◌∙◌, arith, All, All-append, select, Outcome, ok, ok_injective, err, panic, message,
  if◌then◌else◌, Bool-cases, inl, inr, is_some, index, none, some, Option, ◌==◌, StringMap,
}
use mathlib.Core.List.{append_assoc, append-nil}
use quarks_statefulset.Names.Annotation
use quarks_statefulset.Kube.Types.{StatefulSet}
use quarks_statefulset.Text.Decimal.{parse_int64, IsInt64}
use quarks_statefulset.Text.Decimal.Range.{parse_int64-IsInt64}
use quarks_statefulset.Quarks.Versions.{version_of, keep, scan, parsed}

abbrev has_version : ℤ → Outcome ℤ → Bool
has_version v (ok w) = eqb_ℤ w v
has_version v (err e) = false
has_version v panic = false

-- The StatefulSets whose version is the given one, in order.
abbrev pub at_version : ℤ → List StatefulSet → List StatefulSet
at_version v ss = select (λ s. has_version v (version_of s)) ss

-- A StatefulSet with a version annotation that can be read, at most the given one.
pub record HasVersionUpTo (highest : ℤ) (s : StatefulSet) : Type 0 where
  pub version : ℤ
  pub is_version : version_of s ≡ ok version
  pub bounded : version ≤ℤ highest

-- What the result says of the StatefulSets gone through.
pub record Finds (seen : List StatefulSet) (found : List StatefulSet × ℤ) : Type 0 where
  pub bounded : All (HasVersionUpTo found.1) seen
  pub exact : found.0 ≡ at_version found.1 seen
  pub nonnegative : pos 0 ≤ℤ found.1
  pub fits : IsInt64 found.1

select-append :
    (p : StatefulSet → Bool) (xs ys : List StatefulSet)
    → select p (xs ++ ys) ≡ select p xs ++ select p ys
select-append p [] ys = refl
select-append p (x ∷ xs) ys = ground (arith, select-append p xs ys)

raise : (v w : ℤ) → v ≤ℤ w → (s : StatefulSet) → HasVersionUpTo v s → HasVersionUpTo w s
raise v w le s h = record {
  version = h.version;
  is_version = h.is_version;
  bounded = omega (arith, le, h.bounded);
}

All-raise :
    (v w : ℤ)
    → v ≤ℤ w
    → (seen : List StatefulSet) → All (HasVersionUpTo v) seen
    → All (HasVersionUpTo w) seen
All-raise v w le [] h = tt
All-raise v w le (s ∷ ss) (hs, h) = (raise v w le s hs, All-raise v w le ss h)

none_above :
    (v w : ℤ)
    → v <ℤ w
    → (seen : List StatefulSet) → All (HasVersionUpTo v) seen
    → at_version w seen ≡ []
none_above v w lt [] h = refl
none_above v w lt (s ∷ ss) (hs, h) =
    let below : eqb_ℤ hs.version w ≡ false = ground (arith, lt, hs.bounded) in
    rw hs.is_version (rw below (none_above v w lt ss h))

text_version : StringMap → Outcome ℤ
unfolding version_of
text_version m =
    let text = index m Annotation.version in
    if text == ""
    then err (message "the version annotation is missing")
    else parsed (parse_int64 text)

annotated : (m : StringMap) (v : ℤ) → text_version m ≡ ok v → is_some m ≡ true
unfolding text_version
annotated none v e = cc e
annotated (some m) v e = refl

version_of_annotated :
    (s : StatefulSet) (v : ℤ) → version_of s ≡ ok v → is_some s.meta.annotations ≡ true
unfolding version_of text_version
version_of_annotated s v e = annotated s.meta.annotations v e

text_version-IsInt64 : (m : StringMap) (v : ℤ) → text_version m ≡ ok v → IsInt64 v
unfolding text_version
text_version-IsInt64 m v e = elim (Bool-cases (index m Annotation.version == "")) [
  | inl empty ↦ cc (e, ap test empty)
  | inr filled ↦ go (parse_int64 (index m Annotation.version)) refl (ap test (sym filled) ∙ e)
]
  where
    test : Bool → Outcome ℤ
    test b =
        if b
        then err (message "the version annotation is missing")
        else parsed (parse_int64 (index m Annotation.version))

    go : (o : Option ℤ) → parse_int64 (index m Annotation.version) ≡ o → parsed o ≡ ok v → IsInt64 v
    go none is e' = cc e'
    go (some w) is e' =
        parse_int64-IsInt64 (index m Annotation.version) v (is ∙ ap some (ok_injective e'))

version_of-IsInt64 : (s : StatefulSet) (v : ℤ) → version_of s ≡ ok v → IsInt64 v
unfolding version_of text_version
version_of-IsInt64 s v e = text_version-IsInt64 s.meta.annotations v e

-- The step by which the loop keeps the description true.
module _ (s : StatefulSet) (v : ℤ) (is_version : version_of s ≡ ok v) where
  bounded :
      (highest : ℤ) (seen : List StatefulSet)
      → All (HasVersionUpTo highest) seen
      → v ≤ℤ highest
      → All (HasVersionUpTo highest) (seen ++ s ∷ [])
  bounded highest seen h le =
      All-append (HasVersionUpTo highest) seen (s ∷ []) h
        (record { version = v; is_version = is_version; bounded = le }, tt)

  at_version-snoc :
      (seen : List StatefulSet) (w : ℤ)
      → at_version w (seen ++ s ∷ []) ≡ at_version w seen ++ (if eqb_ℤ v w then s ∷ [] else [])
  at_version-snoc seen w =
      rw (select-append (λ t. has_version w (version_of t)) seen (s ∷ [])) (rw is_version refl)

  keep-Finds :
      (seen : List StatefulSet) (result : List StatefulSet) (highest : ℤ)
      → Finds seen (result, highest)
      → Finds (seen ++ s ∷ []) (keep v s (result, highest))
  unfolding keep
  keep-Finds seen result highest f =
      rw (version_of_annotated s v is_version) (elim (Bool-cases (ltb_ℤ highest v)) [
        | inl higher ↦ rw higher (record {
          bounded =
              All-append (HasVersionUpTo v) seen (s ∷ [])
                (All-raise highest v (ground (arith, higher)) seen f.bounded)
                (record { version = v; is_version = is_version; bounded = ground arith }, tt);
          exact =
              rw (at_version-snoc seen v)
                (rw (none_above highest v (ground (arith, higher)) seen f.bounded) (ground arith));
          nonnegative = ground (arith, higher, f.nonnegative);
          fits = version_of-IsInt64 s v is_version;
        })
        | inr not_higher ↦ rw not_higher (elim (Bool-cases (eqb_ℤ v highest)) [
          | inl equal ↦ rw equal (record {
            bounded = bounded highest seen f.bounded (ground (arith, not_higher));
            exact = rw (at_version-snoc seen highest) (rw equal (ap (λ l. l ++ s ∷ []) f.exact));
            nonnegative = f.nonnegative;
            fits = f.fits;
          })
          | inr lower ↦ rw lower (record {
            bounded = bounded highest seen f.bounded (ground (arith, not_higher));
            exact = rw (at_version-snoc seen highest) (rw lower (f.exact ∙ sym (append-nil _)));
            nonnegative = f.nonnegative;
            fits = f.fits;
          })
        ])
      ])

scan-Finds :
    (seen ss : List StatefulSet) (found : List StatefulSet × ℤ)
    → Finds seen found
    → (result : List StatefulSet × ℤ) → scan ss found ≡ ok result
    → Finds (seen ++ ss) result
unfolding scan
scan-Finds seen [] found f result e = rw (append-nil seen) (subst (Finds seen) (ok_injective e) f)
scan-Finds seen (s ∷ ss) (found, highest) f result e =
    go (version_of s) refl e (λ found' g. scan-Finds (seen ++ s ∷ []) ss found' g result)
  where
    go :
        (o : Outcome ℤ)
        → version_of s ≡ o
        → (elim o as (λ o. Outcome (List StatefulSet × ℤ)) [
          | ok version ↦ scan ss (keep version s (found, highest))
          | err x ↦ err x
          | panic ↦ panic
        ])
          ≡ ok result
        → ((found' : List StatefulSet × ℤ)
            → Finds (seen ++ s ∷ []) found'
            → scan ss found' ≡ ok result
            → Finds ((seen ++ s ∷ []) ++ ss) result)
        → Finds (seen ++ s ∷ ss) result
    go (ok v) is e rest =
        subst (λ l. Finds l result) (append_assoc seen (s ∷ []) ss)
          (rest _ (keep-Finds s v is seen found highest f) e)
    go (err x) is e rest = cc e
    go panic is e rest = cc e

-- Where the search over StatefulSets succeeds, each of them has a version annotation that can be
-- read and is at most the version found, that version is not negative, and the StatefulSets found
-- are exactly those that have it, in order.
pub scan-Highest :
    (ss : List StatefulSet) (result : List StatefulSet × ℤ)
    → scan ss ([], pos 0) ≡ ok result
    → Finds ss result
scan-Highest ss result e =
    scan-Finds [] ss ([], pos 0)
      (record { bounded = tt; exact = refl; nonnegative = omega arith; fits = omega arith }) result
      e
