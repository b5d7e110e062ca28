-- ===== src/Web/Format.antt =====
-- apps/web/src/lib/formatters.ts: numbers and times as they are shown.
pub mod Laws
pub mod Status
use Prim.Native.String.{◌++◌ as text_append}
use remodelator.Base.{
  ℕ, ◌/◌, String, Bool, true, false, not, ◌||◌, Option, none, some, List, [], ◌∷◌, ltb,
  if◌then◌else◌,
}
use remodelator.Base.Text.{is_empty, decimal}
use remodelator.Web.Builtins.{Builtins}

-- `string | number | undefined | null`
pub data Amount (N : Type 0) : Type 0 where
  absent : Amount N
  text : String → Amount N
  number : N → Amount N

module _ {N : Type 0} (num : Builtins N) where
  -- the number that is shown, `none` where the fixed text is
  abbrev unless_nan : N → Option N
  unless_nan n = if num.is_nan n then none else some n

  abbrev pub shown_number : Amount N → Option N
  shown_number absent = none
  shown_number (text String.[]) = none
  shown_number (text (String.◌∷◌ c s)) = unless_nan (num.parse_float (String.◌∷◌ c s))
  shown_number (number n) = unless_nan n

  -- `currency` is `Intl.NumberFormat` for dollars.
  unfoldable pub format_money : (N → String) → Amount N → String
  format_money currency v = elim (shown_number v) [ none ↦ "$0.00" | some n ↦ currency n ]

  unfoldable pub format_percent : Amount N → String
  format_percent v = elim (shown_number v) [
    | none ↦ "0.00%"
    | some n ↦ text_append (num.to_fixed n) "%"
  ]

  unfoldable pub format_quantity : Amount N → String
  format_quantity v = elim (shown_number v) [ none ↦ "0" | some n ↦ num.to_text (num.trunc n) ]

  unfoldable pub format_decimal : Amount N → String
  format_decimal v = elim (shown_number v) [ none ↦ "0.00" | some n ↦ num.to_fixed n ]

  -- `charAt(0)` and `slice(1)` of a text whose first character is one unit of UTF-16
  unfoldable pub capitalize : String → String
  capitalize String.[] = ""
  capitalize (String.◌∷◌ c s) = text_append (num.to_upper_case (String.◌∷◌ c String.[])) s

-- how far a date lies back, in milliseconds: not at all or in the future, in the past, or unknown because
-- it is no valid date
pub data Elapsed : Type 0 where
  invalid : Elapsed
  ahead : Elapsed
  ago : ℕ → Elapsed

-- `Intl.DateTimeFormat`, which throws at an invalid date
unfoldable pub format_date : (String → Option String) → Option String → String
format_date intl none = "—"
format_date intl (some date) =
    if is_empty date then "—" else elim (intl date) [ none ↦ date | some shown ↦ shown ]

abbrev minutes : ℕ → ℕ
minutes ms = ms / 60000

abbrev hours : ℕ → ℕ
hours ms = minutes ms / 60

abbrev days : ℕ → ℕ
days ms = hours ms / 24

-- the text for a time that lies back; `none` for one that is shown as a date
unfoldable pub ago_text : ℕ → Option String
ago_text ms =
    if ltb (minutes ms) 1
    then some "just now"
    else if ltb (minutes ms) 60
    then some (text_append (decimal (minutes ms)) "m ago")
    else if ltb (hours ms) 24
    then some (text_append (decimal (hours ms)) "h ago")
    else if ltb (days ms) 30
    then some (text_append (decimal (days ms)) "d ago")
    else none

-- Each comparison with an invalid date fails, and a date ahead is less than a minute ago.
abbrev relative : Elapsed → Option String
relative invalid = none
relative ahead = some "just now"
relative (ago ms) = ago_text ms

abbrev pub text_or : Option String → String → String
text_or none other = other
text_or (some shown) other = shown

unfoldable pub format_relative_time :
    (String → Option String) → (String → Elapsed) → Option String → String
unfolding format_date ago_text
format_relative_time intl elapsed none = "—"
format_relative_time intl elapsed (some date) =
    if is_empty date then "—" else text_or (relative (elapsed date)) (format_date intl (some date))
