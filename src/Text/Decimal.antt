-- ===== src/Text/Decimal.antt =====
-- strconv.Itoa, strconv.FormatInt, strconv.Atoi and strconv.ParseInt, in base 10 at 64 bits.
pub mod RoundTrip
pub mod Range
use Prim.Native.Char.{Char, code}
use Prim.Native.String.{[], ◌∷◌}
use quarks_statefulset.Prelude.{
  ℕ, zero, suc, ◌+◌, ◌-◌, ◌*◌, ◌/◌, ◌%◌, ◌^◌, ◌<◌, String, Option, none, some, ◌&&◌, ltb, leb, eqb,
  ℤ, pos, negsuc, if◌then◌else◌,
}

digit : ℕ → Char
digit zero = "0"
digit (suc zero) = "1"
digit (suc (suc zero)) = "2"
digit (suc (suc (suc zero))) = "3"
digit (suc (suc (suc (suc zero)))) = "4"
digit (suc (suc (suc (suc (suc zero))))) = "5"
digit (suc (suc (suc (suc (suc (suc zero)))))) = "6"
digit (suc (suc (suc (suc (suc (suc (suc zero))))))) = "7"
digit (suc (suc (suc (suc (suc (suc (suc (suc zero)))))))) = "8"
digit _ = "9"

-- The digits of `n` in front of a text; a number has no more digits than its value and one.
digits_into : ℕ → ℕ → String → String
digits_into zero n out = out
digits_into (suc fuel) n out =
    let rest = digits_into fuel (n / 10) (digit (n % 10) ∷ out) in
    if ltb n 10 then digit n ∷ out else rest

unfoldable pub itoa_ℕ : ℕ → String
unfolding digits_into digit
itoa_ℕ n = digits_into (suc n) n []

unfoldable pub itoa : ℤ → String
unfolding itoa_ℕ
itoa (pos n) = itoa_ℕ n
itoa (negsuc n) = "-" ∷ itoa_ℕ (n + 1)

-- The value of digits read behind `n`, if the text is digits only.
magnitude : String → ℕ → Option ℕ
magnitude [] n = some n
magnitude (c ∷ s) n =
    let rest = magnitude s (n * 10 + (code c - 48)) in
    if leb 48 (code c) && leb (code c) 57 then rest else none

unfoldable pub unsigned : String → Option ℕ
unfolding magnitude
unsigned [] = none
unsigned (c ∷ s) = magnitude (c ∷ s) 0

abbrev at_most : Option ℕ → Option ℤ
at_most none = none
at_most (some n) = if ltb n (2 ^ 63) then some (pos n) else none

abbrev at_least : Option ℕ → Option ℤ
at_least none = none
at_least (some zero) = some (pos 0)
at_least (some (suc n)) = if ltb n (2 ^ 63) then some (negsuc n) else none

-- `none` is a `*strconv.NumError`, of syntax or of range.
unfoldable pub parse_int64 : String → Option ℤ
unfolding unsigned
parse_int64 [] = none
parse_int64 (c ∷ s) =
    if eqb (code c) 45
    then at_least (unsigned s)
    else if eqb (code c) 43
    then at_most (unsigned s)
    else at_most (unsigned (c ∷ s))

-- The range of Go's int and int64.
abbrev pub IsInt64 : ℤ → Type 0
IsInt64 (pos n) = n < 2 ^ 63
IsInt64 (negsuc n) = n < 2 ^ 63
