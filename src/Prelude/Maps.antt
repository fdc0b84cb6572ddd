-- ===== src/Prelude/Maps.antt =====
-- Go's `map[string]string`: `none` is the nil map, which can be read and not written.
use Prim.Native.String.{String}
use mathlib.Core.Path.{◌≡◌, refl}
use mathlib.Core.Bool.{Bool, true, false}
use mathlib.Core.Option.{Option, none, some}
use mathlib.Core.List.{List, [], ◌∷◌}
use native.Mathlib.Omega.{arith}
use text.Mathlib.Text.{◌==◌}
use text.Mathlib.TextEquality.{eq_iff}
use text.Mathlib.TextPositions.{eq_refl}
use quarks_statefulset.Prelude.Tests.{if◌then◌else◌}
use quarks_statefulset.Prelude.Outcomes.{Outcome, ok, panic}

module _ {ℓ} {V : Type ℓ} where
  abbrev pub lookup : String → List (String × V) → Option V
  lookup k [] = none
  lookup k ((j, v) ∷ m) = if j == k then some v else lookup k m

  abbrev pub insert : String → V → List (String × V) → List (String × V)
  insert k v [] = (k, v) ∷ []
  insert k v ((j, w) ∷ m) = if j == k then (k, v) ∷ m else (j, w) ∷ insert k v m

  abbrev pub erase : String → List (String × V) → List (String × V)
  erase k [] = []
  erase k ((j, w) ∷ m) = let rest = erase k m in if j == k then rest else (j, w) ∷ rest

  pub lookup-insert :
      (k j : String) (v : V) (m : List (String × V))
      → lookup j (insert k v m) ≡ (if k == j then some v else lookup j m)
  lookup-insert k j v [] = refl
  lookup-insert k j v ((i, w) ∷ m) =
      ground (arith, eq_iff k j, eq_iff i k, eq_iff i j, lookup-insert k j v m)

  pub lookup-erase :
      (k j : String) (m : List (String × V))
      → lookup j (erase k m) ≡ (if k == j then none else lookup j m)
  lookup-erase k j [] = ground arith
  lookup-erase k j ((i, w) ∷ m) =
      ground (arith, eq_iff k j, eq_iff i k, eq_iff i j, lookup-erase k j m)

abbrev pub StringMap : Type 0
StringMap = Option (List (String × String))

-- `v, found := m[k]`
abbrev pub get : StringMap → String → Option String
get none k = none
get (some m) k = lookup k m

abbrev pub or_empty : Option String → String
or_empty none = ""
or_empty (some v) = v

-- `m[k]`: a missing key reads as the empty text.
abbrev pub index : StringMap → String → String
index m k = or_empty (get m k)

abbrev pub is_some {ℓ} : {A : Type ℓ} → Option A → Bool
is_some none = false
is_some (some a) = true

-- `_, found := m[k]`
abbrev pub has : StringMap → String → Bool
has m k = is_some (get m k)

-- `m[k] = v`: a write to the nil map panics.
abbrev pub put : String → String → StringMap → Outcome StringMap
put k v none = panic
put k v (some m) = ok (some (insert k v m))

-- `delete(m, k)`: no effect on the nil map.
abbrev pub remove : String → StringMap → StringMap
remove k none = none
remove k (some m) = some (erase k m)

pub get-insert :
    (k j : String) (v : String) (m : List (String × String))
    → get (some (insert k v m)) j ≡ (if k == j then some v else get (some m) j)
get-insert k j v m = lookup-insert k j v m

pub get-remove :
    (k j : String) (m : StringMap) → get (remove k m) j ≡ (if k == j then none else get m j)
get-remove k j none = ground arith
get-remove k j (some m) = lookup-erase k j m

pub get-insert_self :
    (k v : String) (m : List (String × String)) → get (some (insert k v m)) k ≡ some v
get-insert_self k v m = rw (get-insert k k v m) (rw (eq_refl k))

pub index-insert :
    (k j : String) (v : String) (m : List (String × String))
    → index (some (insert k v m)) j ≡ (if k == j then v else index (some m) j)
index-insert k j v m = rw (get-insert k j v m) (ground arith)
