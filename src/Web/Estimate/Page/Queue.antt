-- ===== src/Web/Estimate/Page/Queue.antt =====
-- What the page promises of its mutations, without its forms and menus: which of them may start, and what
-- the end of each brings.
use Prim.Native.String.{◌++◌ as text_append}
use remodelator.Base.{
  ℕ, String, Bool, true, false, not, ◌&&◌, ◌||◌, Option, none, some, List, [], ◌∷◌, ◌++◌, ◌≡◌, map,
  any, get_elem?, if◌then◌else◌,
}
use remodelator.Base.Json.{Json, Fields}
use remodelator.Base.Text.{text_eq}
use remodelator.Web.Api.Calls.{Estimates}
use remodelator.Web.Builtins.{Builtins}
use remodelator.Web.Client.{member}
use remodelator.Web.Estimate.Page.Events.{Event}
use remodelator.Web.Estimate.Page.Handlers
use remodelator.Web.Estimate.Page.Mutations.{overlook, drop_at}
use remodelator.Web.Estimate.Page.State.{
  EstimatePage, Command, Running, Kind, runs, kind_of, update, add_item, delete_item,
  delete_estimate, bulk_move, reorder, recalc, export_json, action, set_status, update_mutation,
  add_item_mutation, delete_item_mutation, delete_estimate_mutation, bulk_move_group_mutation,
  recalc_mutation, export_mutation, status_mutation,
}
use remodelator.Web.Query.{
  Effect, Outcome, succeeded, failed, failed_otherwise, invalidate, remove, toast_success,
  toast_error, go_to, estimate_key, estimates_key, error_text,
}

pub record Queue : Type 0 where
  pub in_flight : List Running
  pub calls : List Estimates
  pub effects : List Effect

abbrev pub queue_of : EstimatePage → Queue
queue_of s = record { in_flight = s.in_flight; calls = s.calls; effects = s.effects }

-- the mutations that run at most once at a time
abbrev pub is_lone : Kind → Bool
is_lone update_mutation = true
is_lone add_item_mutation = true
is_lone delete_item_mutation = true
is_lone delete_estimate_mutation = true
is_lone bulk_move_group_mutation = true
is_lone recalc_mutation = true
is_lone export_mutation = true
is_lone _ = false

abbrev pub pending_in : Kind → List Running → Bool
pending_in kind = any (λ (r : Running). r.observed && runs kind r)

abbrev pub may_start : Command → List Running → Bool
may_start command in_flight =
    not (is_lone (kind_of command)) || not (pending_in (kind_of command) in_flight)

-- the command that an event may start while others run; the menu of statuses waits for a change of
-- status
abbrev pub asks : Event → Command → List Running → Bool
asks Event.submit_details (update form) in_flight = true
asks Event.submit_manual (add_item item after) in_flight = true
asks (Event.add_catalog_item node) (add_item item after) in_flight = true
asks Event.confirm_delete_line (delete_item line) in_flight = true
asks Event.confirm_delete_estimate delete_estimate in_flight = true
asks Event.move_selected (bulk_move lines group) in_flight = true
asks (Event.move_up group i) (reorder line index) in_flight = true
asks (Event.move_down group i) (reorder line index) in_flight = true
asks (Event.pick_action Handlers.recalculate) recalc in_flight = true
asks (Event.pick_action Handlers.export_estimate) export_json in_flight = true
asks (Event.pick_action Handlers.duplicate) (action name) in_flight = text_eq name "duplicate"
asks (Event.pick_action Handlers.create_version) (action name) in_flight = text_eq name "version"
asks (Event.pick_action Handlers.unlock_or_lock) (action name) in_flight = text_eq name "unlock"
asks (Event.pick_action Handlers.unlock_or_lock) (set_status status) in_flight =
    text_eq status "locked"
asks (Event.pick_status choice) (set_status status) in_flight =
    text_eq status (Handlers.status_name choice) && not (pending_in status_mutation in_flight)
asks _ _ in_flight = false

abbrev is_some {ℓ} : {A : Type ℓ} → Option A → Bool
is_some none = false
is_some (some x) = true

-- an event that takes the queue further in any case: the end of a command that runs, and the way back
abbrev pub tells : Event → List Running → Bool
tells (Event.settled i outcome) in_flight = is_some (get_elem? in_flight i)
tells Event.back_link in_flight = true
tells _ in_flight = false

module _ (id : String) {N : Type 0} (num : Builtins N) where
  -- both queries are marked as stale, and a toast is shown
  abbrev pub refreshed : String → List Effect
  refreshed message =
      invalidate (estimate_key id) ∷ invalidate estimates_key ∷ toast_success message ∷ []

  abbrev pub done_effects : Command → Json → List Effect
  done_effects (update form) reply = refreshed "Estimate updated"
  done_effects (add_item item after) reply = refreshed "Line item added"
  done_effects (delete_item line) reply = refreshed "Line item removed"
  done_effects delete_estimate reply =
      invalidate estimates_key
      ∷ remove (estimate_key id)
      ∷ toast_success "Estimate deleted"
      ∷ go_to "/estimates"
      ∷ []
  done_effects (bulk_move lines group) reply = refreshed "Selected items moved"
  done_effects (reorder line index) reply =
      invalidate (estimate_key id) ∷ invalidate estimates_key ∷ []
  done_effects recalc reply = refreshed "Totals recalculated"
  done_effects export_json reply =
      toast_success (text_append "Estimate exported to " (num.in_text (member reply "path"))) ∷ []
  done_effects (action name) reply =
      if text_eq name "duplicate"
      then refreshed "Estimate duplicated"
      else if text_eq name "version"
      then refreshed "Estimate versioned"
      else refreshed "Estimate unlocked"
  done_effects (set_status status) reply = refreshed "Status updated"

  -- the toast of a failure without a message; a move within a group fails silently
  abbrev pub fallback : Command → Option String
  fallback (update form) = some "Update failed"
  fallback (add_item item after) = some "Failed to add item"
  fallback (delete_item line) = some "Failed to remove item"
  fallback delete_estimate = some "Failed to delete estimate"
  fallback (bulk_move lines group) = some "Failed to move selected items"
  fallback (reorder line index) = none
  fallback recalc = some "Recalc failed"
  fallback export_json = some "Export failed"
  fallback (action name) = some "Action failed"
  fallback (set_status status) = some "Status update failed"

  abbrev pub failed_effects : Option String → Option String → List Effect
  failed_effects none error = []
  failed_effects (some text) error = toast_error (error_text error text) ∷ []

  abbrev pub end_effects : Command → Outcome → List Effect
  end_effects command (succeeded reply) = done_effects command reply
  end_effects command (failed message) = failed_effects (fallback command) (some message)
  end_effects command failed_otherwise = failed_effects (fallback command) none

  -- an action that is none is refused, whatever the backend does
  abbrev pub ending : Command → Outcome → List Effect
  ending (action name) outcome =
      if text_eq name "duplicate" || text_eq name "version" || text_eq name "unlock"
      then end_effects (action name) outcome
      else toast_error "Unknown action" ∷ []
  ending command outcome = end_effects command outcome

  -- each line gets the group
  abbrev group_updates : String → List String → List Estimates
  group_updates group [] = []
  group_updates group (line ∷ lines) =
      Estimates.update_line_item id line
        (Json.object (Fields.field "group_name" (Json.text group) Fields.end))
      ∷ group_updates group lines

  -- the requests that a command stands for
  abbrev pub requests : Command → List Estimates
  requests (update form) = Estimates.update_estimate id form ∷ []
  requests (add_item item after) = Estimates.add_line_item id item ∷ []
  requests (delete_item line) = Estimates.delete_line_item id line ∷ []
  requests delete_estimate = Estimates.delete_estimate id ∷ []
  requests (bulk_move lines group) = group_updates group lines
  requests (reorder line index) = Estimates.reorder_line_item id line index ∷ []
  requests recalc = Estimates.recalc_estimate id ∷ []
  requests export_json =
      Estimates.export_estimate id (some (text_append "exports/estimate_" (text_append id ".json")))
      ∷ []
  requests (action name) =
      if text_eq name "duplicate"
      then Estimates.duplicate_estimate id ∷ []
      else if text_eq name "version"
      then Estimates.version_estimate id ∷ []
      else if text_eq name "unlock"
      then Estimates.unlock_estimate id ∷ []
      else []
  requests (set_status status) = Estimates.set_estimate_status id status ∷ []

  -- what one event does to the queue
  pub data Step : Event → Queue → Queue → Type 0 where
    idle : (e : Event) (q : Queue) → tells e q.in_flight ≡ false → Step e q q
    start :
        (e : Event) (c : Command) (q : Queue)
        → asks e c q.in_flight ≡ true
        → may_start c q.in_flight ≡ true
        → Step e q (record {
          in_flight =
              map (overlook (kind_of c)) q.in_flight
              ++ record { command = c; observed = true } ∷ [];
          calls = q.calls ++ requests c;
          effects = q.effects;
        })
    refuse :
        (q : Queue)
        → Step Event.submit_manual q
            (record q { effects = q.effects ++ toast_error "Quantity must be a whole number" ∷ [] })
    show_proposal :
        (q : Queue)
        → Step (Event.pick_action Handlers.view_proposal) q (record q {
          effects =
              q.effects ++ go_to (text_append "/estimates/" (text_append id "/proposal")) ∷ [];
        })
    back :
        (q : Queue)
        → Step Event.back_link q (record q { effects = q.effects ++ go_to "/estimates" ∷ [] })
    finish :
        (i : ℕ) (r : Running) (outcome : Outcome) (q : Queue)
        → get_elem? q.in_flight i ≡ some r
        → Step (Event.settled i outcome) q (record {
          in_flight = drop_at q.in_flight i;
          calls = q.calls;
          effects = q.effects ++ ending r.command outcome;
        })

  -- a step for each event
  pub data Steps : List Event → Queue → Queue → Type 0 where
    here : (q : Queue) → Steps [] q q
    next :
        {e : Event} {es : List Event} {p q r : Queue}
        → Step e p q
        → Steps es q r
        → Steps (e ∷ es) p r
