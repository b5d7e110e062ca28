-- ===== src/Web/Builtins.antt =====
-- The numbers of JavaScript, and what apps/web/src takes from the language and the browser.
use remodelator.Base.{String, Bool, ◌||◌, Option, none, some, List, [], ◌∷◌, if◌then◌else◌}
use remodelator.Base.Json.{Json, Fields}

-- `N` is the type of the numbers, NaN and the infinities included.
pub record Builtins (N : Type 0) : Type 0 where
  -- `Number.parseFloat`, and `Number` of a text
  pub parse_float : String → N
  pub to_number : String → N
  pub add : N → N → N
  pub zero : N
  pub one : N
  pub is_nan : N → Bool
  pub is_zero : N → Bool
  pub is_finite : N → Bool
  pub is_integer : N → Bool
  -- `n > 0`
  pub is_positive : N → Bool
  pub trunc : N → N
  -- `n.toFixed(2)`, `String(n)`, and `JSON.stringify(n)`
  pub to_fixed : N → String
  pub to_text : N → String
  pub to_json : N → Json
  -- a value in a template literal, `undefined` where it is missing
  pub in_text : Option Json → String
  pub to_lower_case : String → String
  pub to_upper_case : String → String

module _ {N : Type 0} (num : Builtins N) where
  -- `n || m` for numbers
  abbrev pub or_number : N → N → N
  or_number n m = if num.is_nan n || num.is_zero n then m else n

  -- `parseFloat(s) || 0`
  abbrev pub float_or_zero : String → N
  float_or_zero s = or_number (num.parse_float s) num.zero

  abbrev pub some_number : N → Option Json
  some_number n = some (num.to_json n)

  -- `s ? parseFloat(s) : undefined`
  abbrev pub float_if_given : String → Option Json
  float_if_given String.[] = none
  float_if_given (String.◌∷◌ c s) = some_number (num.parse_float (String.◌∷◌ c s))

-- `s || undefined`
abbrev pub text_if_given : String → Option Json
text_if_given String.[] = none
text_if_given (String.◌∷◌ c s) = some (Json.text (String.◌∷◌ c s))

-- an object as `JSON.stringify` reads it: members that are `undefined` are left out
abbrev pub members : List (String × Option Json) → Fields
members [] = Fields.end
members ((name, none) ∷ rest) = members rest
members ((name, some v) ∷ rest) = Fields.field name v (members rest)

abbrev pub object_of : List (String × Option Json) → Json
object_of entries = Json.object (members entries)
