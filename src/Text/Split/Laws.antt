-- ===== src/Text/Split/Laws.antt =====
-- Splitting, joining and dropping the last part, together.
use Prim.Native.Char.{Char}
use text.Mathlib.TextEquality.{Char-path}
use text.Mathlib.TextLemmas.{cons-append, nil-append}
use quarks_statefulset.Prelude.{
  String, ◌<>◌, List, [], ◌∷◌, Bool, true, false, ◌≡◌, refl, ap, arith, Bool-cases, inl, inr, ◌&&◌,
  not, ◌∙◌,
}
use quarks_statefulset.Text.Split.{is_dash, push, split, join, drop_last}

abbrev pub has_no_dash : String → Bool
has_no_dash String.[] = true
has_no_dash (String.◌∷◌ c s) = not (is_dash c) && has_no_dash s

join-push : (c : Char) (ws : List String) → join (push c ws) ≡ String.◌∷◌ c (join ws)
unfolding push join
join-push c [] = refl
join-push c (w ∷ []) = refl
join-push c (w ∷ v ∷ ws) = cons-append c w _

split_cons : (s : String) → (w : String) × (ws : List String) × (split s ≡ w ∷ ws)
unfolding split
split_cons String.[] = (String.[], [], refl)
split_cons (String.◌∷◌ c s) = elim (Bool-cases (is_dash c)) [
  | inl dash ↦ (String.[], split s, rw dash)
  | inr plain ↦ let (w, ws, e) = split_cons s in (String.◌∷◌ c w, ws, rw (plain, e))
]

join-dash : (s : String) → join (String.[] ∷ split s) ≡ String.◌∷◌ "-" (join (split s))
unfolding join
join-dash s = let (w, ws, e) = split_cons s in rw e (nil-append _)

dash_is : (c : Char) → is_dash c ≡ true → "-" ≡ c
dash_is c h = Char-path "-" c (ground arith)

-- Joining the parts of a text gives the text.
pub join-split : (s : String) → join (split s) ≡ s
unfolding split
join-split String.[] = unfold join in refl
join-split (String.◌∷◌ c s) = elim (Bool-cases (is_dash c)) [
  | inl dash ↦ rw dash (join-dash s ∙ cc (join-split s, dash_is c dash))
  | inr plain ↦ rw plain (join-push c (split s) ∙ ap (λ t. String.◌∷◌ c t) (join-split s))
]

split_plain : (v : String) → has_no_dash v ≡ true → split v ≡ v ∷ []
unfolding split push
split_plain String.[] h = refl
split_plain (String.◌∷◌ c v) h = ground (arith, split_plain v)

split-cons_dash :
    (c : Char) (s : String) → is_dash c ≡ true → split (String.◌∷◌ c s) ≡ String.[] ∷ split s
unfolding split
split-cons_dash c s h = rw h

split-cons_plain :
    (c : Char) (s : String) → is_dash c ≡ false → split (String.◌∷◌ c s) ≡ push c (split s)
unfolding split
split-cons_plain c s h = rw h

drop_last-push :
    (c : Char) (ws : List String) {w : String} {us : List String}
    → drop_last ws ≡ w ∷ us
    → drop_last (push c ws) ≡ push c (drop_last ws)
unfolding drop_last push
drop_last-push c [] h = cc
drop_last-push c (w ∷ []) h = cc
drop_last-push c (w ∷ v ∷ ws) h = refl

drop_last_cons :
    (w : String) (ws : List String) {v : String} {us : List String}
    → ws ≡ v ∷ us
    → drop_last (w ∷ ws) ≡ w ∷ drop_last ws
unfolding drop_last
drop_last_cons w ws e = rw e

drop_last-split :
    (s v : String) → has_no_dash v ≡ true → drop_last (split (s <> String.◌∷◌ "-" v)) ≡ split s
drop_last-split String.[] v h = rw (nil-append _) (unfold split drop_last in rw (split_plain v h))
drop_last-split (String.◌∷◌ c s) v h =
    let rest = s <> String.◌∷◌ "-" v in
    let (w, ws, e) = split_cons rest in
    let (u, us, k) = split_cons s in
    let ih = drop_last-split s v h in
    rw (cons-append c s _) (elim (Bool-cases (is_dash c)) [
      | inl dash ↦
          rw (split-cons_dash c _ dash, split-cons_dash c s dash)
            (drop_last_cons String.[] (split rest) e ∙ ap (λ l. String.[] ∷ l) ih)
      | inr plain ↦
          rw (split-cons_plain c _ plain, split-cons_plain c s plain)
            (drop_last-push c (split rest) (ih ∙ k) ∙ ap (λ l. push c l) ih)
    ])

-- Where the last part has no "-", dropping it leaves what stands before the last "-".
pub join-drop_last-split :
    (s v : String) → has_no_dash v ≡ true → join (drop_last (split (s <> String.◌∷◌ "-" v))) ≡ s
join-drop_last-split s v h = rw (drop_last-split s v h) (join-split s)
