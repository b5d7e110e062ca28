-- ===== src/Web/Format/Laws.antt =====
-- formatters.ts: the time that has gone by.
use Prim.Native.String.{◌++◌ as text_append}
use remodelator.Base.{
  ℕ, ◌+◌, ◌*◌, ◌/◌, ◌≤◌, ◌<◌, ◌≡◌, refl, ◌⊎◌, inl, inr, String, true, false, Option, none, some,
  arith, Bool-cases, ltb,
}
use remodelator.Base.Text.{decimal, is_empty}
use remodelator.Web.Format.{Elapsed, ago, format_relative_time, format_date, ago_text, text_or}

-- a text with how many whole units have gone by, at least one and less than a limit
abbrev pub Counts : ℕ → ℕ → String → ℕ → String → Type 0
Counts unit limit suffix ms text =
    (n : ℕ) × (1 ≤ n)
    × (unit * n ≤ ms)
    × (ms < unit * n + unit)
    × (ms < limit)
    × (text ≡ text_append (decimal n) suffix)

-- the bounds of each text, in milliseconds; from the last on the date is shown
abbrev pub Shown : ℕ → Option String → Type 0
Shown ms none = 2592000000 ≤ ms
Shown ms (some text) =
    ((ms < 60000) × (text ≡ "just now"))
    ⊎ (Counts 60000 3600000 "m ago" ms text
        ⊎ (Counts 3600000 86400000 "h ago" ms text ⊎ Counts 86400000 2592000000 "d ago" ms text))

ltb-lt : (a b : ℕ) → ltb a b ≡ true → a < b
ltb-lt a b h = ground arith

ltb-ge : (a b : ℕ) → ltb a b ≡ false → b ≤ a
ltb-ge a b h = ground arith

ruleset tests = (arith, ltb-lt, ltb-ge)

ago_text-Shown : (ms : ℕ) → Shown ms (ago_text ms)
unfolding ago_text
ago_text-Shown ms = elim (Bool-cases (ltb (ms / 60000) 1)) [
  | inl e ↦ rw e (inl (omega tests, refl))
  | inr e ↦ elim (Bool-cases (ltb (ms / 60000) 60)) [
    | inl f ↦
        rw (e, f) (inr (inl (ms / 60000, omega tests, omega tests, omega tests, omega tests, refl)))
    | inr f ↦ elim (Bool-cases (ltb (ms / 60000 / 60) 24)) [
      | inl g ↦
          rw (e, f, g)
            (inr (
              inr
                (inl (ms / 60000 / 60, omega tests, omega tests, omega tests, omega tests, refl))))
      | inr g ↦ elim (Bool-cases (ltb (ms / 60000 / 60 / 24) 30)) [
        | inl h ↦
            rw (e, f, g, h)
              (inr (
                inr (
                  inr (
                    ms / 60000 / 60 / 24,
                    omega tests,
                    omega tests,
                    omega tests,
                    omega tests,
                    refl,
                  ))))
        | inr h ↦ rw (e, f, g, h) (omega tests)
      ]
    ]
  ]
]

shown-cases :
    (ms : ℕ) (text : Option String) (other : String)
    → Shown ms text
    → Shown ms (some (text_or text other)) ⊎ (Shown ms none × (text_or text other ≡ other))
shown-cases ms none other h = inr (h, refl)
shown-cases ms (some text) other h = inl h

-- A date that lies some milliseconds back is shown by its whole minutes, hours or days, with "just now"
-- below a minute, minutes below an hour, hours below a day and days below thirty days, or by itself.
pub format_relative_time-bounds :
    (intl : String → Option String) (elapsed : String → Elapsed) (date : String) (ms : ℕ)
    → is_empty date ≡ false
    → elapsed date ≡ ago ms
    → Shown ms (some (format_relative_time intl elapsed (some date)))
      ⊎ (Shown ms none
          × (format_relative_time intl elapsed (some date) ≡ format_date intl (some date)))
unfolding format_relative_time
format_relative_time-bounds intl elapsed String.[] ms given e = cc
format_relative_time-bounds intl elapsed (String.◌∷◌ c date) ms given e =
    rw e (
      shown-cases ms (ago_text ms) (format_date intl (some (String.◌∷◌ c date)))
        (ago_text-Shown ms))
