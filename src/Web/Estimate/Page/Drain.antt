-- ===== src/Web/Estimate/Page/Drain.antt =====
-- EstimateDetailPage.tsx: mutations that end.
use mathlib.Core.List.{append-nil}
use remodelator.Base.{
  ℕ, ◌≡◌, refl, sym, ap, ◌∙◌, String, false, ◌&&◌, Option, none, some, List, [], ◌∷◌, ◌++◌, map,
  any, length, get_elem?, arith, Option-cases, inl, inr,
}
use remodelator.Web.Builtins.{Builtins}
use remodelator.Web.Estimate.Page.Ends.{settled-effects, settled-none, drop_at-none}
use remodelator.Web.Estimate.Page.Events.{settled, handle, run}
use remodelator.Web.Estimate.Page.Mutations.{settle, on_error, drop_at, rejected}
use remodelator.Web.Estimate.Page.Queue.{failed_effects, fallback, Queue}
use remodelator.Web.Estimate.Page.State.{
  EstimatePage, Command, Running, Kind, runs, is_pending, reorder, update,
}
use remodelator.Web.Query.{Outcome, failed}

module _ (id : String) {N : Type 0} (num : Builtins N) where
  in_flight-settle :
      (i : ℕ) (outcome : Outcome) (s : EstimatePage)
      → (settle id num i outcome s).in_flight ≡ drop_at s.in_flight i
  in_flight-settle i outcome s = elim (Option-cases (get_elem? s.in_flight i)) [
    | inl e ↦
        ap (λ (q : Queue). q.in_flight) (settled-none id num i outcome s e)
        ∙ sym (drop_at-none s.in_flight i e)
    | inr (r, e) ↦ ap (λ (q : Queue). q.in_flight) (settled-effects id num i r outcome s e)
  ]

  drain-in_flight :
      (l : List Running) (outcomes : List Outcome) (s : EstimatePage)
      → s.in_flight ≡ l
      → length outcomes ≡ length l
      → (run id num (map (settled 0) outcomes) s).in_flight ≡ []
  unfolding run handle
  drain-in_flight [] [] s e h = e
  drain-in_flight [] (o ∷ os) s e h = absurd (omega (arith, h))
  drain-in_flight (r ∷ l) [] s e h = absurd (omega (arith, h))
  drain-in_flight (r ∷ l) (o ∷ os) s e h =
      drain-in_flight l os (settle id num 0 o s)
        (in_flight-settle 0 o s ∙ ap (λ left. drop_at left 0) e) (omega (arith, h))

  -- Once the running mutations have ended, the first one first, with whatever outcomes, none runs and no
  -- button is disabled for one.
  pub drain-idle :
      (outcomes : List Outcome) (s : EstimatePage) (k : Kind)
      → length outcomes ≡ length s.in_flight
      → ((run id num (map (settled 0) outcomes) s).in_flight ≡ [])
        × (is_pending k (run id num (map (settled 0) outcomes) s) ≡ false)
  drain-idle outcomes s k h =
      let e = drain-in_flight s.in_flight outcomes s refl h in
      (e, ap (any (λ (r : Running). r.observed && runs k r)) e)

  on_error-state :
      (c : Command) (error : Option String) (s : EstimatePage)
      → on_error id num c error s
        ≡ record s { effects = s.effects ++ failed_effects id num (fallback id num c) error }
  unfolding on_error
  on_error-state (reorder line index) error s =
      ap (λ e. record s { effects = e }) (sym (append-nil s.effects))
  on_error-state (update form) error s = refl
  on_error-state _ error s = refl

  -- A running mutation that fails with an error leaves the page as it was, but for a toast with the error's
  -- message; that of a move within a group shows nothing.
  pub settle_failed :
      (i : ℕ) (r : Running) (message : String) (s : EstimatePage)
      → get_elem? s.in_flight i ≡ some r
      → rejected r.command ≡ none
      → settle id num i (failed message) s ≡ record s {
        in_flight = drop_at s.in_flight i;
        effects = s.effects ++ failed_effects id num (fallback id num r.command) (some message);
      }
  unfolding settle
  settle_failed i r message s e known =
      rw (e, known)
        (on_error-state r.command (some message) (record s { in_flight = drop_at s.in_flight i }))
