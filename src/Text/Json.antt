-- ===== src/Text/Json.antt =====
-- encoding/json.Marshal of a slice of strings, with the escapes of Go's encoder.
use Prim.Native.Char.{Char, code}
use quarks_statefulset.Prelude.{
  ℕ, ◌/◌, ◌%◌, String, ◌<>◌, List, [], ◌∷◌, ◌||◌, ltb, eqb, if◌then◌else◌,
}

hex_digit : ℕ → String
hex_digit n =
    if ltb n 10
    then (if eqb n 0
        then "0"
        else if eqb n 1
        then "1"
        else if eqb n 2
        then "2"
        else if eqb n 3
        then "3"
        else if eqb n 4
        then "4"
        else if eqb n 5
        then "5"
        else if eqb n 6
        then "6"
        else if eqb n 7
        then "7"
        else if eqb n 8
        then "8"
        else "9")
    else if eqb n 10
    then "a"
    else if eqb n 11
    then "b"
    else if eqb n 12
    then "c"
    else if eqb n 13
    then "d"
    else if eqb n 14
    then "e"
    else "f"

-- Control characters, the characters of HTML, and the two line separators of JavaScript.
escape : Char → String
unfolding hex_digit
escape c =
    let k = code c in
    if eqb k 34
    then "\\\""
    else if eqb k 92
    then "\\\\"
    else if eqb k 10
    then "\\n"
    else if eqb k 13
    then "\\r"
    else if eqb k 9
    then "\\t"
    else if ltb k 32 || eqb k 60 || eqb k 62 || eqb k 38
    then "\\u00" <> hex_digit (k / 16) <> hex_digit (k % 16)
    else if eqb k 8232
    then "\\u2028"
    else if eqb k 8233
    then "\\u2029"
    else String.◌∷◌ c String.[]

escaped : String → String
unfolding escape
escaped String.[] = String.[]
escaped (String.◌∷◌ c s) = escape c <> escaped s

quoted : String → String
unfolding escaped
quoted s = "\"" <> escaped s <> "\""

items : List String → String
unfolding quoted
items [] = ""
items (s ∷ []) = quoted s
items (s ∷ t ∷ ss) = quoted s <> "," <> items (t ∷ ss)

-- A nil slice would be `null`; the program marshals zones only if there is one.
unfoldable pub marshal_strings : List String → String
unfolding items
marshal_strings ss = "[" <> items ss <> "]"
