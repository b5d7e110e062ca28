-- ===== src/Legacy/Actions/Card/Laws.antt =====
-- billingActions.ts: the length and the characters of the card number.
use Prim.Native.Char.{code}
use text.Mathlib.TextLemmas.{nil-append, cons-append}
use remodelator.Base.{
  ℕ, zero, suc, ◌+◌, ◌-◌, ◌≤◌, ◌≡◌, refl, ◌∙◌, String, true, arith, Bool-cases, inl, inr,
}
use remodelator.Base.Int.{is_digit}
use remodelator.Base.Text.{or_text}
use remodelator.Legacy.Actions.Card.{only_digits, size, drop, last, zeros, clean_last4}
use remodelator.Legacy.Defaults.{default_card_last4}

-- every character is one of 0 to 9
abbrev pub AllDigits : String → Type 0
AllDigits String.[] = Unit
AllDigits (String.◌∷◌ c s) = (is_digit (code c) ≡ true) × AllDigits s

only_digits-AllDigits : (s : String) → AllDigits (only_digits s)
unfolding only_digits
only_digits-AllDigits String.[] = tt
only_digits-AllDigits (String.◌∷◌ c s) = elim (Bool-cases (is_digit (code c))) [
  | inl yes_digit ↦ rw yes_digit (yes_digit, only_digits-AllDigits s)
  | inr other ↦ rw other (only_digits-AllDigits s)
]

drop-AllDigits : (n : ℕ) (s : String) → AllDigits s → AllDigits (drop n s)
drop-AllDigits zero s h = h
drop-AllDigits (suc n) String.[] h = h
drop-AllDigits (suc n) (String.◌∷◌ c s) h = drop-AllDigits n s h.1

size-drop : (n : ℕ) (s : String) → size (drop n s) ≡ size s - n
size-drop zero s = omega arith
size-drop (suc n) String.[] = omega arith
size-drop (suc n) (String.◌∷◌ c s) = omega (arith, size-drop n s)

zeros-AllDigits : (n : ℕ) (s : String) → AllDigits s → AllDigits (zeros n s)
unfolding is_digit
zeros-AllDigits zero s h = h
zeros-AllDigits (suc n) s h = rw (cons-append, nil-append) (refl, zeros-AllDigits n s h)

size-zeros : (n : ℕ) (s : String) → size (zeros n s) ≡ n + size s
size-zeros zero s = omega arith
size-zeros (suc n) s = rw (cons-append, nil-append) (omega (arith, size-zeros n s))

or_text-card :
    (s : String)
    → AllDigits s
    → size s ≤ 4
    → AllDigits (or_text s default_card_last4) × (size (or_text s default_card_last4) ≤ 4)
unfolding is_digit
or_text-card String.[] h k = ((refl, (refl, (refl, (refl, tt)))), omega arith)
or_text-card (String.◌∷◌ c s) h k = (h, k)

-- Whatever text the card field holds, the number sent has exactly four characters, each a digit.
pub clean_last4-AllDigits :
    (raw : String) → AllDigits (clean_last4 raw) × (size (clean_last4 raw) ≡ 4)
unfolding clean_last4
clean_last4-AllDigits raw =
    let digits = only_digits raw in
    let (all, short) =
      or_text-card (last 4 digits) (drop-AllDigits _ digits (only_digits-AllDigits raw))
        (omega (arith, size-drop (size digits - 4) digits)) in
    let t = or_text (last 4 digits) default_card_last4 in
    (zeros-AllDigits (4 - size t) t all, size-zeros (4 - size t) t ∙ omega arith)
