-- ===== src/Web/Estimate/Page/Asked.antt =====
-- EstimateDetailPage.tsx: what the page has asked for when it drops its estimate or goes to the list.
use Prim.Native.String.{◌++◌ as text_append}
use remodelator.Base.{
  ◌≡◌, refl, sym, ap, ◌∙◌, String, Bool, true, false, ◌||◌, List, [], ◌∷◌, ◌++◌, map, any, arith,
  Bool-cases, inl, inr,
}
use remodelator.Web.Api.Paths.{estimates-ne}
use remodelator.Web.Builtins.{Builtins}
use remodelator.Web.Estimate.Page.Events.{Event, run}
use remodelator.Web.Estimate.Page.Mutations.{overlook}
use remodelator.Web.Estimate.Page.Queue.{
  Queue, Step, Steps, idle, start, refuse, show_proposal, back, finish, here, next, ending,
  requests,
}
use remodelator.Web.Estimate.Page.Refine.{run-Steps}
use remodelator.Web.Estimate.Page.State.{Command, Running, kind_of, opened}
use remodelator.Web.Estimate.Types.{Estimate}
use remodelator.Web.Query.{Effect}
use remodelator.Web.Estimate.Page.Removal.{
  leaves, deletes, is_delete, delete_runs, true-false, any-append, any-imp, or_assoc,
  delete_runs-overlook, delete_runs-drop_at, delete_runs-at, requests-delete, ending-leaves,
}

-- effects of `p` come only once the removal is asked for, or with an event that `mark` marks
module _ (id : String) {N : Type 0} (num : Builtins N) (p : Effect → Bool) (mark : Event → Bool)
    (within : (e : Effect) → p e ≡ true → leaves e ≡ true)
    (linked : p (Effect.go_to "/estimates") ≡ true → mark Event.back_link ≡ true) where
  record Asked (marked : Bool) (q : Queue) : Type 0 where
    running : delete_runs q.in_flight ≡ true → any (deletes id) q.calls ≡ true
    left : any p q.effects ≡ true → (any (deletes id) q.calls || marked) ≡ true

  or-split :
      (a b c d : Bool)
      → (a || b) ≡ true
      → (a ≡ true → c ≡ true)
      → (b ≡ true → d ≡ true)
      → (c || d) ≡ true
  or-split true b c d h f g = rw (f refl) refl
  or-split false true true d h f g = refl
  or-split false true false d h f g = g refl
  or-split false false c d h f g = cc

  widen : (d b m : Bool) → (d || b) ≡ true → (d || (b || m)) ≡ true
  widen d b m h = ground arith

  widen_both : (d n b m : Bool) → (d || b) ≡ true → ((d || n) || (b || m)) ≡ true
  widen_both d n b m h = ground arith

  or_right : (d b m : Bool) → m ≡ true → (d || (b || m)) ≡ true
  or_right d b m h = ground arith

  or_left : (d m : Bool) → d ≡ true → (d || m) ≡ true
  or_left d m h = rw h refl

  started-running :
      (b : Bool) (c : Command) (q : Queue)
      → Asked b q
      → delete_runs
          (map (overlook (kind_of c)) q.in_flight ++ record { command = c; observed = true } ∷ [])
        ≡ true
      → any (deletes id) (q.calls ++ requests id num c) ≡ true
  started-running b c q h e =
      let split : (delete_runs q.in_flight || (is_delete c || false)) ≡ true =
        sym (
          rw
            (
              any-append (λ (r : Running). is_delete r.command)
                  (map (overlook (kind_of c)) q.in_flight)
                  (record { command = c; observed = true } ∷ []),
              delete_runs-overlook (kind_of c) q.in_flight,
            )
            refl)
        ∙ e in
      any-append (deletes id) q.calls (requests id num c)
      ∙ or-split (delete_runs q.in_flight) (is_delete c || false) _ _ split h.running
          (λ d. requests-delete id num c (ground arith))

  with_effects :
      (b m : Bool) (q : Queue) (more : List Effect)
      → Asked b q
      → (any p more ≡ true → (any (deletes id) q.calls || (b || m)) ≡ true)
      → any p (q.effects ++ more) ≡ true
      → (any (deletes id) q.calls || (b || m)) ≡ true
  with_effects b m q more h f e = elim (Bool-cases (any p q.effects)) [
    | inl before ↦ widen _ b m (h.left before)
    | inr none_before ↦ f (sym (rw (any-append p q.effects more, none_before) refl) ∙ e)
  ]

  -- an effect that does not leave
  other_effect :
      (b m : Bool) (q : Queue) (e : Effect)
      → Asked b q
      → leaves e ≡ false
      → any p (q.effects ++ e ∷ []) ≡ true
      → (any (deletes id) q.calls || (b || m)) ≡ true
  other_effect b m q e h stays =
      with_effects b m q (e ∷ []) h
        (λ l. absurd (true-false (sym (any-imp p leaves (e ∷ []) within l) ∙ rw stays refl)))

  Step-Asked :
      {b : Bool} {e : Event} {x y : Queue} → Asked b x → Step id num e x y → Asked (b || mark e) y
  Step-Asked {b} h (idle e q quiet) = record {
    running = h.running;
    left = λ l. widen _ b _ (h.left l);
  }
  Step-Asked {b} h (start e c q asked may) = record {
    running = started-running b c q h;
    left = λ l.
        ap (λ d. d || (b || mark e)) (any-append (deletes id) q.calls (requests id num c))
        ∙ widen_both _ _ b _ (h.left l);
  }
  Step-Asked {b} h (refuse q) = record { running = h.running; left = other_effect b _ q _ h refl }
  Step-Asked {b} h (show_proposal q) = record {
    running = h.running;
    left = other_effect b _ q _ h (estimates-ne (text_append id "/proposal"));
  }
  Step-Asked {b} h (back q) = record {
    running = h.running;
    left = with_effects b _ q _ h (λ l. or_right _ b _ (linked (ground arith)));
  }
  Step-Asked {b} h (finish i r outcome q e) = record {
    running = λ e'. h.running (delete_runs-drop_at q.in_flight i e');
    left = with_effects b _ q (ending id num r.command outcome) h (λ l. or_left _ _ (
        h.running (
          delete_runs-at q.in_flight i r e
            (ending-leaves id num r.command outcome (any-imp p leaves _ within l)))));
  }

  Steps-Asked :
      {es : List Event} {x y : Queue}
      → Steps id num es x y
      → (b : Bool) → Asked b x
      → any p y.effects ≡ true
      → (any (deletes id) y.calls || (b || any mark es)) ≡ true
  Steps-Asked (here q) b h l = widen _ b _ (h.left l)
  Steps-Asked (next {e} {es} {r = z} step steps) b h l =
      ap (λ m. any (deletes id) z.calls || m) (or_assoc b (mark e) (any mark es))
      ∙ Steps-Asked steps (b || mark e) (Step-Asked h step) l

  pub page-Asked :
      (estimate : Estimate) (es : List Event)
      → any p (run id num es (opened estimate)).effects ≡ true
      → (any (deletes id) (run id num es (opened estimate)).calls || any mark es) ≡ true
  unfolding opened
  page-Asked estimate es =
      Steps-Asked (run-Steps id num es (opened estimate)) false
        (record { running = λ e. cc; left = λ e. cc })
