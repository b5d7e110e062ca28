-- ===== src/Web/Estimate/Page/Handlers.antt =====
-- EstimateDetailPage.tsx: the handlers of the page. A handler does nothing where its button is not shown
-- or is disabled.
use remodelator.Base.{
  ℕ, String, Bool, true, false, not, ◌&&◌, ◌||◌, Option, none, some, List, [], ◌∷◌, get_elem?,
  if◌then◌else◌,
}
use remodelator.Base.Text.{text_eq, is_empty}
use remodelator.Web.Api.Send.{joined}
use remodelator.Web.Builtins.{Builtins}
use remodelator.Web.Estimate.Groups.{
  grouped_line_items, move_up_index, move_down_index, effective_bulk_group_target,
}
use remodelator.Web.Estimate.Page.Bodies.{
  details_body, catalog_item_body, manual_item_body, is_refused_quantity,
}
use remodelator.Web.Estimate.Page.Labor.{prefilled}
use remodelator.Web.Estimate.Page.Mutations.{mutate, show}
use remodelator.Web.Estimate.Page.State.{
  EstimatePage, AddItemMode, catalog, manual, reset_panel, fill_form, is_pending,
  reset_add_item_panel, update, add_item, delete_item, bulk_move, reorder, recalc, export_json,
  action, set_status, update_mutation, add_item_mutation, delete_item_mutation,
  bulk_move_group_mutation, recalc_mutation, export_mutation, status_mutation,
}
use remodelator.Web.Estimate.Selection.{toggle_catalog_node}
use remodelator.Web.Estimate.Types.{LineItem, NodeItem, UserProfile}
use remodelator.Web.Query.{toast_error, go_to}

-- an entry of the menu of statuses, and of the menu of actions
pub data StatusChoice : Type 0 where
  draft in_progress completed locked : StatusChoice

pub data ActionChoice : Type 0 where
  recalculate duplicate create_version export_estimate unlock_or_lock view_proposal : ActionChoice
  delete_this : ActionChoice

abbrev pub status_name : StatusChoice → String
status_name draft = "draft"
status_name in_progress = "in_progress"
status_name completed = "completed"
status_name locked = "locked"

abbrev pub when : Bool → EstimatePage → EstimatePage → EstimatePage
when true next s = next
when false next s = s

abbrev pub is_manual : AddItemMode → Bool
is_manual catalog = false
is_manual manual = true

-- `length === 0`
abbrev pub is_none {ℓ} : {A : Type ℓ} → List A → Bool
is_none [] = true
is_none (x ∷ xs) = false

-- a selection shows where the estimate has lines
abbrev pub with_lines : EstimatePage → EstimatePage → EstimatePage
with_lines next s = when (not (is_none s.estimate.line_items)) next s

abbrev pub with_group :
    Option (String × List LineItem) → (List LineItem → EstimatePage) → EstimatePage → EstimatePage
with_group none f s = s
with_group (some (name, members)) f s = f members

abbrev pub with_line : Option LineItem → (LineItem → EstimatePage) → EstimatePage → EstimatePage
with_line none f s = s
with_line (some line) f s = f line

-- a row of the table, by its group and its place in it
abbrev pub with_row :
    List (String × List LineItem) → ℕ → ℕ → (LineItem → EstimatePage) → EstimatePage → EstimatePage
with_row groups group i f s =
    with_group (get_elem? groups group) (λ members. with_line (get_elem? members i) f s) s

-- "Add Item"
unfoldable pub press_add_item : EstimatePage → EstimatePage
unfolding reset_add_item_panel
press_add_item s =
    if s.adding_item
    then reset_add_item_panel s
    else record s { add_item_mode = catalog; adding_item = true }

-- a node of the catalog
unfoldable pub press_category : String → EstimatePage → EstimatePage
unfolding toggle_catalog_node
press_category name s = record s {
  catalog_expanded_nodes = toggle_catalog_node name s.catalog_expanded_nodes;
  catalog_selected_category = some name;
  catalog_search = "";
}

module _ {N : Type 0} (num : Builtins N) where
  unfoldable pub open_details : Option UserProfile → EstimatePage → EstimatePage
  unfolding prefilled
  open_details profile s =
      record (if s.editing_details
        then s
        else record s { detail_form = prefilled num s.estimate profile }) {
          editing_details = not s.editing_details;
        }

abbrev pub close_actions : EstimatePage → EstimatePage
close_actions s = record s { actions_menu_open = false }

module _ (id : String) where
  -- a button of the menu of actions
  unfoldable pub choose_action : ActionChoice → EstimatePage → EstimatePage
  unfolding mutate
  choose_action recalculate s =
      when (not (is_pending recalc_mutation s)) (close_actions (mutate id recalc s)) s
  choose_action duplicate s = close_actions (mutate id (action "duplicate") s)
  choose_action create_version s = close_actions (mutate id (action "version") s)
  choose_action export_estimate s =
      when (not (is_pending export_mutation s)) (close_actions (mutate id export_json s)) s
  choose_action unlock_or_lock s = close_actions (
      mutate id
        (if text_eq s.estimate.status "locked" then action "unlock" else set_status "locked") s)
  choose_action view_proposal s =
      close_actions (show (go_to (joined ("/estimates/" ∷ id ∷ "/proposal" ∷ [])) ∷ []) s)
  choose_action delete_this s = close_actions (record s { confirm_delete_estimate_open = true })

  unfoldable pub choose_status : String → EstimatePage → EstimatePage
  unfolding mutate
  choose_status status s =
      when (not (text_eq s.estimate.status status || is_pending status_mutation s))
        (record (mutate id (set_status status) s) { status_menu_open = false }) s

  -- "Move Selected"
  unfoldable pub move_selected_items : EstimatePage → EstimatePage
  unfolding mutate effective_bulk_group_target
  move_selected_items s =
      let target = effective_bulk_group_target s.bulk_group_target s.bulk_custom_group_name in
      when
        (not (
          is_none s.selected_line_item_ids
          || is_empty target
          || is_pending bulk_move_group_mutation s))
        (mutate id (bulk_move s.selected_line_item_ids target) s) s

  -- the button of a line that sends it to an index; without one it is disabled
  abbrev pub move_to : Option LineItem → Option ℕ → EstimatePage → EstimatePage
  move_to (some line) (some index) s = mutate id (reorder line.id index) s
  move_to _ _ s = s

  unfoldable pub move_line_up : ℕ → ℕ → EstimatePage → EstimatePage
  unfolding mutate grouped_line_items move_up_index
  move_line_up group i s =
      with_group (get_elem? (grouped_line_items s.estimate.line_items) group)
        (λ members. move_to (get_elem? members i) (move_up_index s.estimate.line_items members i) s)
        s

  unfoldable pub move_line_down : ℕ → ℕ → EstimatePage → EstimatePage
  unfolding mutate grouped_line_items move_down_index
  move_line_down group i s =
      with_group (get_elem? (grouped_line_items s.estimate.line_items) group)
        (λ members.
          move_to (get_elem? members i) (move_down_index s.estimate.line_items members i) s)
        s

  -- the button of the dialog that asks before a line is removed
  abbrev pub remove_pending : Option LineItem → EstimatePage → EstimatePage
  remove_pending none s = s
  remove_pending (some line) s =
      when (not (is_pending delete_item_mutation s)) (mutate id (delete_item line.id) s) s

  module _ {N : Type 0} (num : Builtins N) where
    -- the submission of the details, and of a manual item; the buttons are disabled while one runs
    unfoldable pub save_details : EstimatePage → EstimatePage
    unfolding mutate details_body
    save_details s =
        when (s.editing_details && not (is_pending update_mutation s))
          (mutate id (update (details_body num s.detail_form)) s) s

    unfoldable pub add_manual_item : EstimatePage → EstimatePage
    unfolding mutate manual_item_body is_refused_quantity
    add_manual_item s =
        when (s.adding_item && is_manual s.add_item_mode && not (is_pending add_item_mutation s))
          (if is_refused_quantity num s.item_form.quantity
            then show (toast_error "Quantity must be a whole number" ∷ []) s
            else mutate id (add_item (manual_item_body num s.item_form) reset_panel) s)
          s

    unfoldable pub add_catalog_item_to_estimate : NodeItem → EstimatePage → EstimatePage
    unfolding mutate catalog_item_body
    add_catalog_item_to_estimate item s =
        when
          (s.adding_item && not (is_manual s.add_item_mode) && not (is_pending add_item_mutation s))
          (mutate id
            (add_item (catalog_item_body num item s.item_form)
              (if s.close_catalog_after_add then reset_panel else fill_form item))
            s)
          s
