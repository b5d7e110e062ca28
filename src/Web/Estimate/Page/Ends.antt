-- ===== src/Web/Estimate/Page/Ends.antt =====
-- EstimateDetailPage.tsx: what the end of a mutation brings.
use mathlib.Core.List.{append_assoc, append-nil}
use remodelator.Base.{
  ℕ, zero, suc, ◌≡◌, refl, sym, ap, ◌∙◌, subst, String, Bool, true, false, ◌||◌, Option, none, some,
  List, [], ◌∷◌, ◌++◌, get_elem?, map, Bool-cases, Option-cases, inl, inr,
}
use remodelator.Web.Api.Calls.{update_line_item}
use remodelator.Web.Builtins.{Builtins}
use remodelator.Web.Estimate.Page.Events.{Event, settled}
use remodelator.Web.Estimate.Page.Mutations.{
  mutate, settle, on_success, on_error, rejected, outcome_of, ended, drop_at, invalidate_estimate,
  calls_of, overlook,
}
use remodelator.Web.Estimate.Page.Queue.{
  Queue, Step, queue_of, idle, start, finish, may_start, asks, requests, ending, end_effects,
  done_effects, failed_effects, fallback,
}
use remodelator.Web.Estimate.Page.State.{
  EstimatePage, Command, Running, kind_of, update, add_item, delete_item, delete_estimate,
  bulk_move, reorder, recalc, export_json, action, set_status, reset_panel, fill_form,
  reset_add_item_panel, reset_item_form,
}
use remodelator.Base.Json.{Json, Fields}
use remodelator.Base.Text.{text_eq}
use remodelator.Web.Query.{Effect, Outcome, succeeded, failed, failed_otherwise}

pub drop_at-none : (l : List Running) (i : ℕ) → get_elem? l i ≡ none → drop_at l i ≡ l
drop_at-none [] i e = refl
drop_at-none (r ∷ l) zero e = cc
drop_at-none (r ∷ l) (suc i) e = ap (λ rest. r ∷ rest) (drop_at-none l i e)

module _ (id : String) {N : Type 0} (num : Builtins N) where
  -- the queue goes the step of an event
  pub data Moves (e : Event) (s t : EstimatePage) : Type 0 where
    moves : Step id num e (queue_of s) (queue_of t) → Moves e s t

  group_updates-calls :
      (group : String) (lines : List String)
      → calls_of id (bulk_move lines group) ≡ requests id num (bulk_move lines group)
  unfolding calls_of
  group_updates-calls group [] = refl
  group_updates-calls group (line ∷ lines) =
      ap
        (λ rest.
          update_line_item id line
            (Json.object (Fields.field "group_name" (Json.text group) Fields.end))
          ∷ rest)
        (group_updates-calls group lines)

  calls_of-requests : (c : Command) → calls_of id c ≡ requests id num c
  unfolding calls_of
  calls_of-requests (bulk_move lines group) = group_updates-calls group lines
  calls_of-requests (update form) = refl
  calls_of-requests export_json = refl
  calls_of-requests _ = refl

  pub mutate-Moves :
      (e : Event) (c : Command) (s : EstimatePage)
      → asks e c s.in_flight ≡ true
      → may_start c s.in_flight ≡ true
      → Moves e s (mutate id c s)
  unfolding mutate
  mutate-Moves e c s asked h = moves (
      subst
        (λ cs. Step id num e (queue_of s) (record {
          in_flight =
              map (overlook (kind_of c)) s.in_flight
              ++ record { command = c; observed = true } ∷ [];
          calls = s.calls ++ cs;
          effects = s.effects;
        }))
        (sym (calls_of-requests c)) (start e c (queue_of s) asked h))

  -- the queue with more effects
  abbrev told : EstimatePage → List Effect → Queue
  told s effects = record (queue_of s) { effects = s.effects ++ effects }

  past-effects :
      (name : String) (s : EstimatePage)
      → queue_of (on_success id num (action name) true (Json.object Fields.end) s)
        ≡ told s (done_effects id num (action name) (Json.object Fields.end))
  unfolding on_success invalidate_estimate
  past-effects name s = elim (Bool-cases (text_eq name "duplicate")) [
    | inl e ↦ rw (e, append_assoc) refl
    | inr e ↦ elim (Bool-cases (text_eq name "version")) [
      | inl f ↦ rw (e, f, append_assoc) refl
      | inr f ↦ rw (e, f, append_assoc) refl
    ]
  ]

  on_success-effects :
      (c : Command) (observed : Bool) (reply : Json) (s : EstimatePage)
      → queue_of (on_success id num c observed reply s) ≡ told s (done_effects id num c reply)
  unfolding on_success invalidate_estimate reset_add_item_panel reset_item_form
  on_success-effects (update form) observed reply s = rw append_assoc refl
  on_success-effects (add_item item after) false reply s = rw append_assoc refl
  on_success-effects (add_item item reset_panel) true reply s = rw append_assoc refl
  on_success-effects (add_item item (fill_form x)) true reply s = rw append_assoc refl
  on_success-effects (delete_item line) observed reply s = rw append_assoc refl
  on_success-effects delete_estimate observed reply s = refl
  on_success-effects (bulk_move lines group) observed reply s = rw append_assoc refl
  on_success-effects (reorder line index) observed reply s = refl
  on_success-effects recalc observed reply s = rw append_assoc refl
  on_success-effects export_json observed reply s = refl
  on_success-effects (action name) observed reply s = past-effects name s
  on_success-effects (set_status status) observed reply s = rw append_assoc refl

  on_error-effects :
      (c : Command) (error : Option String) (s : EstimatePage)
      → queue_of (on_error id num c error s)
        ≡ told s (failed_effects id num (fallback id num c) error)
  unfolding on_error
  on_error-effects (reorder line index) error s =
      ap (λ e. record (queue_of s) { effects = e }) (sym (append-nil s.effects))
  on_error-effects (update form) error s = refl
  on_error-effects _ error s = refl

  ended-effects :
      (r : Running) (outcome : Outcome) (s : EstimatePage)
      → queue_of (ended id num r outcome s) ≡ told s (end_effects id num r.command outcome)
  ended-effects r (succeeded reply) s = on_success-effects r.command r.observed reply s
  ended-effects r (failed message) s = on_error-effects r.command (some message) s
  ended-effects r failed_otherwise s = on_error-effects r.command none s

  known-ending :
      (name : String) (outcome : Outcome)
      → end_effects id num (action name) (outcome_of id num (rejected (action name)) outcome)
        ≡ ending id num (action name) outcome
  known-ending name outcome =
      elim (Bool-cases
        (text_eq name "duplicate" || text_eq name "version" || text_eq name "unlock")) [
          | inl known ↦ rw known refl
          | inr other ↦ rw other refl
        ]

  outcome_of-ending :
      (c : Command) (outcome : Outcome)
      → end_effects id num c (outcome_of id num (rejected c) outcome) ≡ ending id num c outcome
  outcome_of-ending (action name) outcome = known-ending name outcome
  outcome_of-ending (update form) outcome = refl
  outcome_of-ending _ outcome = refl

  pub settled-effects :
      (i : ℕ) (r : Running) (outcome : Outcome) (s : EstimatePage)
      → get_elem? s.in_flight i ≡ some r
      → queue_of (settle id num i outcome s) ≡ record {
        in_flight = drop_at s.in_flight i;
        calls = s.calls;
        effects = s.effects ++ ending id num r.command outcome;
      }
  unfolding settle
  settled-effects i r outcome s e = rw e (
      ended-effects r (outcome_of id num (rejected r.command) outcome) _
      ∙ ap
          (λ more. record {
            in_flight = drop_at s.in_flight i;
            calls = s.calls;
            effects = s.effects ++ more;
          })
          (outcome_of-ending r.command outcome))

  pub settled-none :
      (i : ℕ) (outcome : Outcome) (s : EstimatePage)
      → get_elem? s.in_flight i ≡ none
      → queue_of (settle id num i outcome s) ≡ queue_of s
  unfolding settle
  settled-none i outcome s e =
      rw e (ap (λ l. record (queue_of s) { in_flight = l }) (drop_at-none s.in_flight i e))

  pub settle-Moves :
      (i : ℕ) (outcome : Outcome) (s : EstimatePage)
      → Moves (settled i outcome) s (settle id num i outcome s)
  settle-Moves i outcome s = elim (Option-cases (get_elem? s.in_flight i)) [
    | inl e ↦ moves (
        subst (Step id num (settled i outcome) (queue_of s)) (sym (settled-none i outcome s e))
          (idle (settled i outcome) (queue_of s) (rw e refl)))
    | inr (r, e) ↦ moves (
        subst (Step id num (settled i outcome) (queue_of s)) (sym (settled-effects i r outcome s e))
          (finish i r outcome (queue_of s) e))
  ]
