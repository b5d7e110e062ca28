-- ===== src/Web/Debounce/Laws.antt =====
-- useDebounce.ts: when the debounced value follows.
use remodelator.Base.{
  ℕ, zero, suc, ◌≤◌, ◌<◌, ◌≡◌, refl, ap, ◌∙◌, String, Bool, true, false, Option, none, some, List,
  [], ◌∷◌, arith, Bool-cases, inl, inr, ltb, ◌&&◌, not,
}
use remodelator.Base.Text.{text_eq}
use remodelator.Web.Debounce.{Debounce, mount, render, tick, wait, typing}

abbrev state : String → String → Option ℕ → Debounce
state value debounced timer = record { value = value; debounced = debounced; timer = timer }

-- a timer that is due within the delay, and no timer only when the values agree
abbrev Within : ℕ → String → String → Option ℕ → Type 0
Within delay_ms value debounced none = debounced ≡ value
Within delay_ms value debounced (some n) = n ≤ delay_ms

abbrev Inv : ℕ → Debounce → Type 0
Inv delay_ms s = Within delay_ms s.value s.debounced s.timer

mount-Inv : (delay_ms : ℕ) (v : String) → Inv delay_ms (mount delay_ms v)
unfolding mount
mount-Inv delay_ms v = omega arith

render-Inv :
    (delay_ms : ℕ) (v : String) (s : Debounce) → Inv delay_ms s → Inv delay_ms (render delay_ms v s)
unfolding render
render-Inv delay_ms v s h = elim (Bool-cases (text_eq v s.value)) [
  | inl same ↦ rw same h
  | inr other ↦ rw other (omega arith)
]

elapse-Inv :
    (delay_ms : ℕ) (value debounced : String) (timer : Option ℕ)
    → Within delay_ms value debounced timer
    → Inv delay_ms (tick (state value debounced timer))
unfolding tick
elapse-Inv delay_ms value debounced none h = h
elapse-Inv delay_ms value debounced (some zero) h = refl
elapse-Inv delay_ms value debounced (some (suc zero)) h = refl
elapse-Inv delay_ms value debounced (some (suc (suc n))) h = omega arith

wait-Inv : (delay_ms n : ℕ) (s : Debounce) → Inv delay_ms s → Inv delay_ms (wait n s)
unfolding wait
wait-Inv delay_ms zero s h = h
wait-Inv delay_ms (suc n) s h =
    wait-Inv delay_ms n (tick s) (elapse-Inv delay_ms s.value s.debounced s.timer h)

typing-Inv :
    (delay_ms : ℕ) (es : List (String × ℕ)) (s : Debounce)
    → Inv delay_ms s
    → Inv delay_ms (typing delay_ms es s)
unfolding typing
typing-Inv delay_ms [] s h = h
typing-Inv delay_ms ((v, ms) ∷ es) s h =
    typing-Inv delay_ms es _ (wait-Inv delay_ms ms _ (render-Inv delay_ms v s h))

wait-idle :
    (n : ℕ) (value debounced : String)
    → wait n (state value debounced none) ≡ state value debounced none
unfolding wait tick
wait-idle zero value debounced = refl
wait-idle (suc n) value debounced = wait-idle n value debounced

-- a timer that runs out
wait-fires :
    (n k : ℕ) (value debounced : String)
    → k ≤ suc n
    → wait (suc n) (state value debounced (some k)) ≡ state value value none
unfolding wait tick
wait-fires n zero value debounced h = wait-idle n value value
wait-fires n (suc zero) value debounced h = wait-idle n value value
wait-fires zero (suc (suc k)) value debounced h = absurd (omega arith)
wait-fires (suc n) (suc (suc k)) value debounced h =
    wait-fires n (suc k) value debounced (omega arith)

-- and one that does not
wait-holds :
    (n k : ℕ) (value debounced : String)
    → n < k
    → (m : ℕ) × (wait n (state value debounced (some k)) ≡ state value debounced (some m))
unfolding wait tick
wait-holds zero k value debounced h = (k, refl)
wait-holds (suc n) zero value debounced h = absurd (omega arith)
wait-holds (suc n) (suc zero) value debounced h = absurd (omega arith)
wait-holds (suc n) (suc (suc k)) value debounced h =
    wait-holds n (suc k) value debounced (omega arith)

wait-settles :
    (delay_ms n : ℕ) (value debounced : String) (timer : Option ℕ)
    → delay_ms ≤ suc n
    → Within delay_ms value debounced timer
    → wait (suc n) (state value debounced timer) ≡ state value value none
wait-settles delay_ms n value debounced none e h =
    wait-idle (suc n) value debounced ∙ ap (λ d. state value d none) h
wait-settles delay_ms n value debounced (some k) e h = wait-fires n k value debounced (omega arith)

-- After any typing that follows the first render, the debounced value is the value once the delay, or a
-- millisecond where the delay is 0, has gone by with no other value, and no timer is left.
pub typing_settles :
    (delay_ms n : ℕ) (first : String) (es : List (String × ℕ))
    → delay_ms ≤ suc n
    → wait (suc n) (typing delay_ms es (mount delay_ms first)) ≡ record {
      value = (typing delay_ms es (mount delay_ms first)).value;
      debounced = (typing delay_ms es (mount delay_ms first)).value;
      timer = none;
    }
typing_settles delay_ms n first es e =
    let s = typing delay_ms es (mount delay_ms first) in
    wait-settles delay_ms n s.value s.debounced s.timer e
      (typing-Inv delay_ms es (mount delay_ms first) (mount-Inv delay_ms first))

-- each value differs from the one before, and the pause after it is shorter than the delay
abbrev pub is_burst : ℕ → String → List (String × ℕ) → Bool
is_burst delay_ms value [] = true
is_burst delay_ms value ((v, ms) ∷ es) =
    not (text_eq v value) && ltb ms delay_ms && is_burst delay_ms v es

burst-head :
    (differs short rest : Bool)
    → (not differs && short && rest) ≡ true
    → (differs ≡ false) × (short ≡ true) × (rest ≡ true)
burst-head differs short rest h = ground arith

render-other :
    (delay_ms : ℕ) (v : String) (s : Debounce)
    → text_eq v s.value ≡ false
    → render delay_ms v s ≡ state v s.debounced (some delay_ms)
unfolding render
render-other delay_ms v s e = rw e refl

ltb-lt : (a b : ℕ) → ltb a b ≡ true → a < b
ltb-lt a b h = ground arith

wait-render :
    (delay_ms ms : ℕ) (v : String) (s : Debounce)
    → text_eq v s.value ≡ false
    → ms < delay_ms
    → (m : ℕ) × (wait ms (render delay_ms v s) ≡ state v s.debounced (some m))
wait-render delay_ms ms v s other short =
    let (m, e) = wait-holds ms delay_ms v s.debounced short in
    (m, ap (wait ms) (render-other delay_ms v s other) ∙ e)

-- While each value differs from the one before and the next comes before the delay has gone by, the
-- debounced value stays what it was.
pub typing_holds :
    (delay_ms : ℕ) (es : List (String × ℕ)) (s : Debounce)
    → is_burst delay_ms s.value es ≡ true
    → (typing delay_ms es s).debounced ≡ s.debounced
unfolding typing
typing_holds delay_ms [] s h = refl
typing_holds delay_ms ((v, ms) ∷ es) s h =
    let (other, short, rest) =
      burst-head (text_eq v s.value) (ltb ms delay_ms) (is_burst delay_ms v es) h in
    let (m, e) = wait-render delay_ms ms v s other (ltb-lt ms delay_ms short) in
    ap (λ t. (typing delay_ms es t).debounced) e
    ∙ typing_holds delay_ms es (state v s.debounced (some m)) rest
