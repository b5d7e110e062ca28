-- ===== src/Web/Estimate/Page/Mutations.antt =====
-- EstimateDetailPage.tsx: what each mutation sends, and what it does when it has ended.
use Prim.Native.String.{◌++◌ as text_append}
use remodelator.Base.{
  ℕ, zero, suc, String, Bool, true, false, ◌||◌, Option, none, some, List, [], ◌∷◌, ◌++◌, map,
  get_elem?, if◌then◌else◌,
}
use remodelator.Base.Json.{Json}
use remodelator.Base.Text.{text_eq}
use remodelator.Web.Api.Calls.{
  Estimates, update_estimate, delete_estimate, set_estimate_status, unlock_estimate,
  duplicate_estimate, version_estimate, recalc_estimate, export_estimate, add_line_item,
  update_line_item, delete_line_item, reorder_line_item,
}
use remodelator.Web.Api.Send.{joined}
use remodelator.Web.Auth.{texts}
use remodelator.Web.Builtins.{Builtins}
use remodelator.Web.Client.{member}
use remodelator.Web.Estimate.Page.Bodies.{filled_form}
use remodelator.Web.Estimate.Page.State.{
  EstimatePage, Command, Running, Kind, After, reset_panel, fill_form, runs, kind_of,
  reset_add_item_panel, update, add_item, delete_item, bulk_move, reorder, recalc, export_json,
  action, set_status,
}
use remodelator.Web.Query.{
  Effect, Outcome, succeeded, failed, failed_otherwise, invalidate, remove, toast_success,
  toast_error, go_to, estimate_key, estimates_key, error_text,
}

abbrev pub show : List Effect → EstimatePage → EstimatePage
show effects s = record s { effects = s.effects ++ effects }

-- a new command takes the eye of its mutation
abbrev pub overlook : Kind → Running → Running
overlook kind r = if runs kind r then record r { observed = false } else r

abbrev pub is_known_action : String → Bool
is_known_action name = text_eq name "duplicate" || text_eq name "version" || text_eq name "unlock"

-- a command whose mutation rejects at once ends with this error, whatever the backend does
abbrev pub rejected : Command → Option String
rejected (action name) = if is_known_action name then none else some "Unknown action"
rejected _ = none

-- the list without the entry
abbrev pub drop_at : List Running → ℕ → List Running
drop_at [] i = []
drop_at (r ∷ rest) zero = rest
drop_at (r ∷ rest) (suc i) = r ∷ drop_at rest i

module _ (id : String) where
  -- the requests of a mutation
  unfoldable pub calls_of : Command → List Estimates
  calls_of (update form) = update_estimate id form ∷ []
  calls_of (add_item item after) = add_line_item id item ∷ []
  calls_of (delete_item line) = delete_line_item id line ∷ []
  calls_of Command.delete_estimate = delete_estimate id ∷ []
  calls_of (bulk_move lines group) =
      map
        (λ (line : String).
          update_line_item id line (Json.object (texts (("group_name", group) ∷ []))))
        lines
  calls_of (reorder line index) = reorder_line_item id line index ∷ []
  calls_of recalc = recalc_estimate id ∷ []
  calls_of export_json =
      export_estimate id (some (joined ("exports/estimate_" ∷ id ∷ ".json" ∷ []))) ∷ []
  calls_of (action name) =
      if text_eq name "duplicate"
      then duplicate_estimate id ∷ []
      else if text_eq name "version"
      then version_estimate id ∷ []
      else if text_eq name "unlock"
      then unlock_estimate id ∷ []
      else []
  calls_of (set_status status) = set_estimate_status id status ∷ []

  -- `mutation.mutate`
  unfoldable pub mutate : Command → EstimatePage → EstimatePage
  unfolding calls_of
  mutate command s = record s {
    in_flight =
        map (overlook (kind_of command)) s.in_flight
        ++ record { command = command; observed = true } ∷ [];
    calls = s.calls ++ calls_of command;
  }

  unfoldable pub invalidate_estimate : EstimatePage → EstimatePage
  invalidate_estimate s = show (invalidate (estimate_key id) ∷ invalidate estimates_key ∷ []) s

  -- the verb that the toast of `actionMutation` ends with
  abbrev past : String → String
  past name =
      if text_eq name "duplicate"
      then "duplicated"
      else if text_eq name "version"
      then "versioned"
      else "unlocked"

  module _ {N : Type 0} (num : Builtins N) where
    -- the `onSuccess` that `mutate` was given
    abbrev after_add : Bool → After → EstimatePage → EstimatePage
    after_add false after s = s
    after_add true reset_panel s = reset_add_item_panel s
    after_add true (fill_form item) s = record s { item_form = filled_form num item s.item_form }

    -- `onSuccess`; a callback given to `mutate` runs if the mutation still observes the command
    unfoldable pub on_success : Command → Bool → Json → EstimatePage → EstimatePage
    unfolding invalidate_estimate reset_add_item_panel filled_form
    on_success (update form) observed reply s =
        show (toast_success "Estimate updated" ∷ [])
          (record (invalidate_estimate s) { editing_details = false })
    on_success (add_item item after) observed reply s =
        after_add observed after
          (show (toast_success "Line item added" ∷ []) (invalidate_estimate s))
    on_success (delete_item line) observed reply s =
        show (toast_success "Line item removed" ∷ [])
          (record (invalidate_estimate s) { pending_delete_line_item = none })
    on_success Command.delete_estimate observed reply s =
        show
          (invalidate estimates_key
            ∷ remove (estimate_key id)
            ∷ toast_success "Estimate deleted"
            ∷ go_to "/estimates"
            ∷ [])
          (record s { confirm_delete_estimate_open = false })
    on_success (bulk_move lines group) observed reply s =
        show (toast_success "Selected items moved" ∷ [])
          (record (invalidate_estimate s) { selected_line_item_ids = [] })
    on_success (reorder line index) observed reply s = invalidate_estimate s
    on_success recalc observed reply s =
        show (toast_success "Totals recalculated" ∷ []) (invalidate_estimate s)
    on_success export_json observed reply s =
        show
          (toast_success (text_append "Estimate exported to " (num.in_text (member reply "path")))
            ∷ [])
          s
    on_success (action name) observed reply s =
        show (toast_success (text_append "Estimate " (past name)) ∷ []) (invalidate_estimate s)
    on_success (set_status status) observed reply s =
        show (toast_success "Status updated" ∷ []) (invalidate_estimate s)

    -- `onError`
    unfoldable pub on_error : Command → Option String → EstimatePage → EstimatePage
    on_error (update form) error s = show (toast_error (error_text error "Update failed") ∷ []) s
    on_error (add_item item after) error s =
        show (toast_error (error_text error "Failed to add item") ∷ []) s
    on_error (delete_item line) error s =
        show (toast_error (error_text error "Failed to remove item") ∷ []) s
    on_error Command.delete_estimate error s =
        show (toast_error (error_text error "Failed to delete estimate") ∷ []) s
    on_error (bulk_move lines group) error s =
        show (toast_error (error_text error "Failed to move selected items") ∷ []) s
    on_error (reorder line index) error s = s
    on_error recalc error s = show (toast_error (error_text error "Recalc failed") ∷ []) s
    on_error export_json error s = show (toast_error (error_text error "Export failed") ∷ []) s
    on_error (action name) error s = show (toast_error (error_text error "Action failed") ∷ []) s
    on_error (set_status status) error s =
        show (toast_error (error_text error "Status update failed") ∷ []) s

    abbrev pub ended : Running → Outcome → EstimatePage → EstimatePage
    ended r (succeeded reply) s = on_success r.command r.observed reply s
    ended r (failed message) s = on_error r.command (some message) s
    ended r failed_otherwise s = on_error r.command none s

    -- the outcome of a command, its own rejection first
    abbrev pub outcome_of : Option String → Outcome → Outcome
    outcome_of none outcome = outcome
    outcome_of (some message) outcome = failed message

    abbrev pub settle_one : Option Running → Outcome → EstimatePage → EstimatePage
    settle_one none outcome s = s
    settle_one (some r) outcome s = ended r (outcome_of (rejected r.command) outcome) s

    -- the running command at a place ends
    unfoldable pub settle : ℕ → Outcome → EstimatePage → EstimatePage
    unfolding on_success on_error
    settle i outcome s =
        settle_one (get_elem? s.in_flight i) outcome
          (record s { in_flight = drop_at s.in_flight i })
