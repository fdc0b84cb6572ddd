-- ===== src/Text/Split.antt =====
-- strings.Split and strings.Join at the separator "-", and the slice of all parts but the last.
pub mod Laws
use Prim.Native.Char.{Char, code}
use Prim.Native.String
use quarks_statefulset.Prelude.{String, ◌<>◌, List, [], ◌∷◌, Bool, eqb, if◌then◌else◌}

abbrev pub is_dash : Char → Bool
is_dash c = eqb (code c) 45

push : Char → List String → List String
push c [] = String.◌∷◌ c String.[] ∷ []
push c (w ∷ ws) = String.◌∷◌ c w ∷ ws

unfoldable pub split : String → List String
unfolding push
split String.[] = String.[] ∷ []
split (String.◌∷◌ c s) = let rest = split s in if is_dash c then String.[] ∷ rest else push c rest

unfoldable pub join : List String → String
join [] = ""
join (w ∷ []) = w
join (w ∷ v ∷ ws) = w <> String.◌∷◌ "-" (join (v ∷ ws))

-- `parts[0 : len(parts)-1]`
unfoldable pub drop_last : List String → List String
drop_last [] = []
drop_last (w ∷ []) = []
drop_last (w ∷ v ∷ ws) = w ∷ drop_last (v ∷ ws)
