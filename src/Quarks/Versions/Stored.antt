-- ===== src/Quarks/Versions/Stored.antt =====
-- The version annotation between generateSingleStatefulSet and GetMaxStatefulSetVersion.
use quarks_statefulset.Prelude.{
  String, false, none, some, ℤ, ◌≡◌, refl, ap, ◌∙◌, ◌==◌, eq_iff, get, or_empty, ok, Outcome,
  Bool-cases, inl, inr, err, message, if◌then◌else◌,
}
use quarks_statefulset.Names.Annotation
use quarks_statefulset.Text.Decimal.{itoa, parse_int64, IsInt64}
use quarks_statefulset.Text.Decimal.RoundTrip.{parse_int64-itoa}
use quarks_statefulset.Kube.Types.{StatefulSet}
use quarks_statefulset.Quarks.Versions.{version_of, parsed}

parse_empty : parse_int64 "" ≡ none
unfolding parse_int64
parse_empty = refl

itoa_not_empty : (v : ℤ) → IsInt64 v → (itoa v == "") ≡ false
itoa_not_empty v fits = elim (Bool-cases (itoa v == "")) [
  | inr n ↦ n
  | inl e ↦ cc (parse_int64-itoa v fits, parse_empty, (eq_iff _ _).0 e)
]

text_version : String → Outcome ℤ
text_version text =
    if text == ""
    then err (message "the version annotation is missing")
    else parsed (parse_int64 text)

text_version-itoa : (v : ℤ) → IsInt64 v → text_version (itoa v) ≡ ok v
unfolding text_version
text_version-itoa v fits = rw (itoa_not_empty v fits) (rw (parse_int64-itoa v fits) refl)

-- A StatefulSet whose version annotation is the decimal form of a version of 64 bits has that
-- version.
pub version_of-itoa :
    (s : StatefulSet) (v : ℤ)
    → IsInt64 v
    → get s.meta.annotations Annotation.version ≡ some (itoa v)
    → version_of s ≡ ok v
unfolding version_of text_version
version_of-itoa s v fits e = ap (λ o. text_version (or_empty o)) e ∙ text_version-itoa v fits
