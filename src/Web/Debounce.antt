-- ===== src/Web/Debounce.antt =====
-- apps/web/src/hooks/useDebounce.ts: a value that follows another after a pause. Time goes in
-- milliseconds; the timer holds what is left of it.
pub mod Laws
use remodelator.Base.{
  ℕ, zero, suc, String, Bool, Option, none, some, List, [], ◌∷◌, leb, ◌-◌, if◌then◌else◌,
}
use remodelator.Base.Text.{text_eq}

pub record Debounce : Type 0 where
  pub value : String
  pub debounced : String
  pub timer : Option ℕ

-- the first render, and the effect that starts the timer
unfoldable pub mount : ℕ → String → Debounce
mount delay_ms value = record { value = value; debounced = value; timer = some delay_ms }

-- A render with a value: the effect runs again, and clears the timer, if the value is another one.
unfoldable pub render : ℕ → String → Debounce → Debounce
render delay_ms value s =
    if text_eq value s.value then s else record s { value = value; timer = some delay_ms }

abbrev fire : ℕ → Debounce → Debounce
fire zero s = record s { debounced = s.value; timer = none }
fire (suc zero) s = record s { debounced = s.value; timer = none }
fire (suc (suc n)) s = record s { timer = some (suc n) }

abbrev elapse : Option ℕ → Debounce → Debounce
elapse none s = s
elapse (some n) s = fire n s

-- a millisecond goes by
unfoldable pub tick : Debounce → Debounce
tick s = elapse s.timer s

unfoldable pub wait : ℕ → Debounce → Debounce
unfolding tick
wait zero s = s
wait (suc n) s = wait n (tick s)

-- values rendered, each with the milliseconds that follow it
unfoldable pub typing : ℕ → List (String × ℕ) → Debounce → Debounce
unfolding render wait
typing delay_ms [] s = s
typing delay_ms ((value, ms) ∷ rest) s = typing delay_ms rest (wait ms (render delay_ms value s))
