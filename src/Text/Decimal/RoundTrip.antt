-- ===== src/Text/Decimal/RoundTrip.antt =====
-- Printing and reading, together.
use Prim.Native.Char.{Char, code}
use Prim.Native.String.{[], ◌∷◌}
use quarks_statefulset.Prelude.{
  ℕ, zero, suc, ◌+◌, ◌-◌, ◌*◌, ◌/◌, ◌%◌, ◌^◌, ◌<◌, String, some, ◌≡◌, refl, ltb, ℤ, pos, negsuc,
  arith, ap, ◌∙◌, sym, Bool-cases, inl, inr,
}
use quarks_statefulset.Text.Decimal.{
  digit, digits_into, itoa_ℕ, itoa, magnitude, unsigned, parse_int64, IsInt64,
}

code-digit : (n : ℕ) → n < 10 → code (digit n) ≡ 48 + n
unfolding digit
code-digit zero h = refl
code-digit (suc zero) h = refl
code-digit (suc (suc zero)) h = refl
code-digit (suc (suc (suc zero))) h = refl
code-digit (suc (suc (suc (suc zero)))) h = refl
code-digit (suc (suc (suc (suc (suc zero))))) h = refl
code-digit (suc (suc (suc (suc (suc (suc zero)))))) h = refl
code-digit (suc (suc (suc (suc (suc (suc (suc zero))))))) h = refl
code-digit (suc (suc (suc (suc (suc (suc (suc (suc zero)))))))) h = refl
code-digit (suc (suc (suc (suc (suc (suc (suc (suc (suc zero))))))))) h = refl
code-digit (suc (suc (suc (suc (suc (suc (suc (suc (suc (suc n)))))))))) h = absurd (omega arith)

magnitude-digit :
    (d n : ℕ) (s : String) → d < 10 → magnitude (digit d ∷ s) n ≡ magnitude s (n * 10 + d)
unfolding magnitude
magnitude-digit d n s h = ground (arith, code-digit d h, ap (λ m. magnitude s m) (shift d n h))
  where
    shift : (d n : ℕ) → d < 10 → n * 10 + (code (digit d) - 48) ≡ n * 10 + d
    shift d n h = omega (arith, code-digit d h)

magnitude-digits_into :
    (fuel n : ℕ) (out : String) → n < fuel → magnitude (digits_into fuel n out) 0 ≡ magnitude out n
unfolding digits_into
magnitude-digits_into zero n out h = absurd (omega arith)
magnitude-digits_into (suc fuel) n out h = elim (Bool-cases (ltb n 10)) [
  | inl small ↦
      rw small (magnitude-digit n 0 out (ground arith) ∙ ap (λ m. magnitude out m) (omega arith))
  | inr large ↦ rw large (
      magnitude-digits_into fuel (n / 10) (digit (n % 10) ∷ out) (ground arith)
      ∙ magnitude-digit (n % 10) (n / 10) out (omega arith)
      ∙ ap (λ m. magnitude out m) (omega arith))
]

starts_with_digit :
    (fuel n : ℕ) (out : String)
    → n < fuel
    → (d : ℕ) × (rest : String) × (d < 10) × (digits_into fuel n out ≡ digit d ∷ rest)
unfolding digits_into
starts_with_digit zero n out h = absurd (omega arith)
starts_with_digit (suc fuel) n out h = elim (Bool-cases (ltb n 10)) [
  | inl small ↦ (n, out, ground arith, rw small)
  | inr large ↦ rw large (starts_with_digit fuel (n / 10) (digit (n % 10) ∷ out) (ground arith))
]

unsigned_of_cons :
    (t : String) {c : Char} {rest : String} → t ≡ c ∷ rest → unsigned t ≡ magnitude t 0
unfolding unsigned
unsigned_of_cons t e = rw e

unsigned-itoa_ℕ : (n : ℕ) → unsigned (itoa_ℕ n) ≡ some n
unfolding itoa_ℕ magnitude
unsigned-itoa_ℕ n =
    let (d, rest, small, e) = starts_with_digit (suc n) n [] (omega arith) in
    unsigned_of_cons (itoa_ℕ n) e ∙ magnitude-digits_into (suc n) n [] (omega arith)

-- Two numbers with one print are one number.
pub itoa_ℕ_injective : (m n : ℕ) → itoa_ℕ m ≡ itoa_ℕ n → m ≡ n
itoa_ℕ_injective m n e = cc (unsigned-itoa_ℕ m, unsigned-itoa_ℕ n, ap unsigned e)

parse_unsigned :
    (t : String) (n : ℕ) {d : ℕ} {rest : String}
    → t ≡ digit d ∷ rest
    → d < 10
    → unsigned t ≡ some n
    → n < 2 ^ 63
    → parse_int64 t ≡ some (pos n)
unfolding parse_int64
parse_unsigned t n {d} {rest} e small u h =
    rw e (ground (arith, code-digit d small, u, ap unsigned e))

parse_itoa_ℕ : (n : ℕ) → n < 2 ^ 63 → parse_int64 (itoa_ℕ n) ≡ some (pos n)
parse_itoa_ℕ n h =
    let (d, rest, small, e) = starts_with_digit (suc n) n [] (omega arith) in
    parse_unsigned (itoa_ℕ n) n {d = d} {rest = rest} (unfold itoa_ℕ in e) small (unsigned-itoa_ℕ n)
      h

parse_negative :
    (t : String) (n : ℕ)
    → unsigned t ≡ some (suc n)
    → n < 2 ^ 63
    → parse_int64 ("-" ∷ t) ≡ some (negsuc n)
unfolding parse_int64
parse_negative t n u h = rw u (ground arith)

itoa-pos : (n : ℕ) → itoa (pos n) ≡ itoa_ℕ n
unfolding itoa
itoa-pos n = refl

itoa-negsuc : (n : ℕ) → itoa (negsuc n) ≡ "-" ∷ itoa_ℕ (n + 1)
unfolding itoa
itoa-negsuc n = refl

-- An int64 that is printed is read back as the same number.
pub parse_int64-itoa : (z : ℤ) → IsInt64 z → parse_int64 (itoa z) ≡ some z
parse_int64-itoa (pos n) h = rw itoa-pos (parse_itoa_ℕ n h)
parse_int64-itoa (negsuc n) h =
    rw itoa-negsuc (parse_negative _ n (unsigned-itoa_ℕ (n + 1) ∙ ap some (omega arith)) h)

pub itoa-pos_injective : (m n : ℕ) → itoa (pos m) ≡ itoa (pos n) → m ≡ n
itoa-pos_injective m n e = itoa_ℕ_injective m n (sym (itoa-pos m) ∙ e ∙ itoa-pos n)
