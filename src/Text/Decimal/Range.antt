-- ===== src/Text/Decimal/Range.antt =====
-- The range of what is read.
use Prim.Native.Char.{code}
use Prim.Native.String.{[], ◌∷◌}
use quarks_statefulset.Prelude.{
  ℕ, zero, suc, ◌^◌, String, Option, none, some, ◌≡◌, refl, subst, ltb, eqb, Bool, true, false, ℤ,
  pos, negsuc, arith, some_injective, if◌then◌else◌,
}
use quarks_statefulset.Text.Decimal.{unsigned, parse_int64, IsInt64, at_most, at_least}

abbrev guarded : Bool → ℤ → Option ℤ
guarded b z = if b then some z else none

guarded-IsInt64 : (b : Bool) (z w : ℤ) → (b ≡ true → IsInt64 z) → guarded b z ≡ some w → IsInt64 w
guarded-IsInt64 true z w h e = subst IsInt64 (some_injective e) (h refl)
guarded-IsInt64 false z w h e = cc e

at_most-IsInt64 : (o : Option ℕ) (z : ℤ) → at_most o ≡ some z → IsInt64 z
at_most-IsInt64 none z e = cc e
at_most-IsInt64 (some n) z e = guarded-IsInt64 (ltb n (2 ^ 63)) (pos n) z (λ h. ground (arith, h)) e

at_least-IsInt64 : (o : Option ℕ) (z : ℤ) → at_least o ≡ some z → IsInt64 z
at_least-IsInt64 none z e = cc e
at_least-IsInt64 (some zero) z e = subst IsInt64 (some_injective e) (omega arith)
at_least-IsInt64 (some (suc n)) z e =
    guarded-IsInt64 (ltb n (2 ^ 63)) (negsuc n) z (λ h. ground (arith, h)) e

choice-IsInt64 :
    (minus plus : Bool) (a b c : Option ℕ) (z : ℤ)
    → (if minus then at_least a else if plus then at_most b else at_most c) ≡ some z
    → IsInt64 z
choice-IsInt64 true plus a b c z e = at_least-IsInt64 a z e
choice-IsInt64 false true a b c z e = at_most-IsInt64 b z e
choice-IsInt64 false false a b c z e = at_most-IsInt64 c z e

pub parse_int64-IsInt64 : (t : String) (z : ℤ) → parse_int64 t ≡ some z → IsInt64 z
unfolding parse_int64
parse_int64-IsInt64 [] z e = cc e
parse_int64-IsInt64 (c ∷ t) z e =
    choice-IsInt64 (eqb (code c) 45) (eqb (code c) 43) (unsigned t) (unsigned t) (unsigned (c ∷ t))
      z e
