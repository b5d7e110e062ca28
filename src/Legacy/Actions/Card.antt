-- ===== src/Legacy/Actions/Card.antt =====
-- archive/apps/web/src_legacy/lib/billingActions.ts: the card number that `onSimulateStripeCardAttach`
-- sends, `(last4.replace(/\D/g, "").slice(-4) || "4242").padStart(4, "0")`.
pub mod Laws
use Prim.Native.Char.{code}
use Prim.Native.String.{◌++◌ as text_append}
use remodelator.Base.{ℕ, zero, suc, ◌-◌, String, if◌then◌else◌}
use remodelator.Base.Int.{is_digit}
use remodelator.Base.Text.{or_text}
use remodelator.Legacy.Defaults.{default_card_last4}

-- `s.replace(/\D/g, "")`
unfoldable pub only_digits : String → String
unfolding is_digit
only_digits String.[] = String.[]
only_digits (String.◌∷◌ c s) =
    if is_digit (code c) then String.◌∷◌ c (only_digits s) else only_digits s

abbrev pub size : String → ℕ
size String.[] = 0
size (String.◌∷◌ c s) = suc (size s)

abbrev pub drop : ℕ → String → String
drop zero s = s
drop (suc n) String.[] = String.[]
drop (suc n) (String.◌∷◌ c s) = drop n s

-- `s.slice(-n)`
unfoldable pub last : ℕ → String → String
last n s = drop (size s - n) s

abbrev pub zeros : ℕ → String → String
zeros zero s = s
zeros (suc n) s = text_append "0" (zeros n s)

-- `s.padStart(n, "0")`
unfoldable pub pad_start : ℕ → String → String
pad_start n s = zeros (n - size s) s

unfoldable pub clean_last4 : String → String
unfolding only_digits last pad_start
clean_last4 raw = pad_start 4 (or_text (last 4 (only_digits raw)) default_card_last4)
