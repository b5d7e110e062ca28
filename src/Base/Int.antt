-- ===== src/Base/Int.antt =====
-- Integers over the native numbers, and `Number.parseInt(s, 10)`.
use Prim.Native.Char.{code}
use Prim.Native.Nat.{ℕ, zero, suc, ◌+◌, ◌-◌, ◌*◌, min, max}
use Prim.Native.String.{String, [], ◌∷◌, ◌++◌}
use mathlib.Core.Bool.{Bool, ◌&&◌}
use mathlib.Core.Option.{Option, none, some}
use remodelator.Base.Tests.{leb, ◌==◌, if◌then◌else◌}
use remodelator.Base.Text.{trim_start, decimal}

-- `negsuc n` is -(n + 1)
pub data ℤ : Type 0 where
  pos : ℕ → ℤ
  negsuc : ℕ → ℤ

abbrev pub negate : ℕ → ℤ
negate zero = pos 0
negate (suc n) = negsuc n

-- `Math.max(n, x)` and `Math.min(x, n)` for a natural bound
abbrev pub at_least : ℕ → ℤ → ℕ
at_least n (pos x) = max n x
at_least n (negsuc x) = n

abbrev pub at_most : ℕ → ℤ → ℤ
at_most n (pos x) = pos (min x n)
at_most n (negsuc x) = negsuc x

unfoldable pub is_digit : ℕ → Bool
is_digit c = leb b'0' c && leb c b'9'

-- the number that the leading digits spell, after those read so far
unfoldable pub read_digits : ℕ → String → ℕ
unfolding is_digit
read_digits acc [] = acc
read_digits acc (c ∷ s) =
    let more = read_digits (acc * 10 + (code c - b'0')) s in if is_digit (code c) then more else acc

-- no digit first: `NaN`
unfoldable pub read_natural : String → Option ℕ
unfolding is_digit read_digits
read_natural [] = none
read_natural (c ∷ s) = if is_digit (code c) then some (read_digits 0 (c ∷ s)) else none

abbrev map_sign : (ℕ → ℤ) → Option ℕ → Option ℤ
map_sign f none = none
map_sign f (some n) = some (f n)

unfoldable pub read_signed : String → Option ℤ
unfolding read_natural
read_signed [] = none
read_signed (c ∷ s) =
    if code c == b'-'
    then map_sign negate (read_natural s)
    else if code c == b'+'
    then map_sign pos (read_natural s)
    else map_sign pos (read_natural (c ∷ s))

-- `Number.parseInt(s, 10)`; `none` is `NaN`. Values past 2^53, which JavaScript rounds, are kept exact.
unfoldable pub parse_int : String → Option ℤ
unfolding trim_start read_signed
parse_int s = read_signed (trim_start s)

-- `String(n)`
unfoldable pub show_ℤ : ℤ → String
unfolding decimal
show_ℤ (pos n) = decimal n
show_ℤ (negsuc n) = "-" ++ decimal (suc n)
