-- ===== src/Text/Slash.antt =====
-- Keys of two names, with a slash between them.
use Prim.Native.Char.{Char, code}
use text.Mathlib.TextLemmas.{cons-append, nil-append, head-eq_of_cons-eq, tail-eq_of_cons-eq}
use quarks_statefulset.Prelude.{
  String, ◌<>◌, Bool, true, false, ◌≡◌, refl, sym, ◌∙◌, not, ◌&&◌, eqb,
}

abbrev pub is_slash : Char → Bool
is_slash c = eqb (code c) 47

abbrev pub has_no_slash : String → Bool
has_no_slash String.[] = true
has_no_slash (String.◌∷◌ c s) = not (is_slash c) && has_no_slash s

abbrev pub slashed : String → String → String
slashed a b = a <> String.◌∷◌ "/" b

no_slash_first :
    (y : Char) (b c d : String)
    → String.◌∷◌ "/" b ≡ String.◌∷◌ y c <> d
    → has_no_slash (String.◌∷◌ y c) ≡ true
    → ⊥
no_slash_first y b c d e k = let same = head-eq_of_cons-eq (e ∙ cons-append y c d) in cc (k, same)

-- Where the first names have no slash, two keys are equal only if their names are.
pub slashed-injective :
    (a b c d : String)
    → has_no_slash a ≡ true
    → has_no_slash c ≡ true
    → slashed a b ≡ slashed c d
    → (a ≡ c) × (b ≡ d)
slashed-injective String.[] b String.[] d h k e =
    (refl, tail-eq_of_cons-eq (sym (nil-append _) ∙ e ∙ nil-append _))
slashed-injective String.[] b (String.◌∷◌ y c) d h k e =
    absurd (no_slash_first y b c _ (sym (nil-append _) ∙ e) k)
slashed-injective (String.◌∷◌ x a) b String.[] d h k e =
    absurd (no_slash_first x d a _ (sym (nil-append _) ∙ sym e) h)
slashed-injective (String.◌∷◌ x a) b (String.◌∷◌ y c) d h k e =
    let same = sym (cons-append x a _) ∙ e ∙ cons-append y c _ in
    let (names, rest) =
      slashed-injective a b c d (and_right (not (is_slash x)) _ h)
        (and_right (not (is_slash y)) _ k) (tail-eq_of_cons-eq same) in
    (ap2 (head-eq_of_cons-eq same) names, rest)
  where
    and_right : (p q : Bool) → (p && q) ≡ true → q ≡ true
    and_right true q h = h
    and_right false q h = cc h

    ap2 : {x y : Char} {a c : String} → x ≡ y → a ≡ c → String.◌∷◌ x a ≡ String.◌∷◌ y c
    ap2 p q i = String.◌∷◌ (p i) (q i)
