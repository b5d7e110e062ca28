-- ===== src/Base/Text.antt =====
-- JavaScript texts: emptiness, `trim`, decimal digits. A text is the native `String`; `trim` walks its
-- characters.
use Prim.Native.Char.{Char, code}
use Prim.Native.Nat.{ℕ, zero, suc, ◌/◌, ◌%◌}
use Prim.Native.String.{String, [], ◌∷◌, ◌++◌}
use mathlib.Core.Bool.{Bool, true, false, ◌||◌, ◌&&◌}
pub use text.Mathlib.Text.{◌==◌ as text_eq}
pub use text.Mathlib.TextEquality.{eq_iff as text_eq_iff}
pub use text.Mathlib.TextPositions.{eq_refl as text_eq_refl}
use remodelator.Base.Tests.{leb, ltb, ◌==◌, if◌then◌else◌}

-- JavaScript's `!s` for a text
abbrev pub is_empty : String → Bool
is_empty [] = true
is_empty (c ∷ s) = false

-- `s || d` for texts
abbrev pub or_text : String → String → String
or_text [] d = d
or_text (c ∷ s) d = c ∷ s

-- `s.startsWith(t)`
abbrev pub starts_with : String → String → Bool
starts_with s [] = true
starts_with [] (d ∷ t) = false
starts_with (c ∷ s) (d ∷ t) = code c == code d && starts_with s t

-- WhiteSpace and LineTerminator of ECMAScript
unfoldable pub is_space : ℕ → Bool
is_space c =
    (leb 9 c && leb c 13)
    || c == 32
    || c == 160
    || c == 0x1680
    || (leb 0x2000 c && leb c 0x200a)
    || c == 0x2028
    || c == 0x2029
    || c == 0x202f
    || c == 0x205f
    || c == 0x3000
    || c == 0xfeff

unfoldable pub trim_start : String → String
unfolding is_space
trim_start [] = []
trim_start (c ∷ s) = if is_space (code c) then trim_start s else c ∷ s

-- a character in front of an already trimmed rest: dropped if it is space and nothing follows
abbrev pub keep : Char → String → String
keep c [] = if is_space (code c) then [] else c ∷ []
keep c (d ∷ s) = c ∷ d ∷ s

unfoldable pub trim_end : String → String
unfolding is_space
trim_end [] = []
trim_end (c ∷ s) = keep c (trim_end s)

-- `String.prototype.trim`
unfoldable pub trim : String → String
unfolding trim_start trim_end
trim s = trim_end (trim_start s)

-- `Boolean(s.trim())` negated: nothing but space
abbrev pub is_blank : String → Bool
is_blank s = is_empty (trim s)

digit : ℕ → String
digit d =
    if d == 0
    then "0"
    else if d == 1
    then "1"
    else if d == 2
    then "2"
    else if d == 3
    then "3"
    else if d == 4
    then "4"
    else if d == 5
    then "5"
    else if d == 6
    then "6"
    else if d == 7
    then "7"
    else if d == 8
    then "8"
    else "9"

digits_from : ℕ → ℕ → String → String
digits_from zero n acc = acc
digits_from (suc f) n acc =
    let rest = digits_from f (n / 10) (digit (n % 10) ++ acc) in
    if ltb n 10 then digit n ++ acc else rest

-- `String(n)` for a natural number; a number has fewer digits than its successor's value.
unfoldable pub decimal : ℕ → String
unfolding digits_from digit
decimal n = digits_from (suc n) n ""
