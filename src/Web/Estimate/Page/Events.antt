-- ===== src/Web/Estimate/Page/Events.antt =====
-- EstimateDetailPage.tsx: what can happen to the page, and a visit as a sequence of it.
use remodelator.Base.{
  ℕ, String, Bool, false, not, ◌&&◌, Option, none, some, List, [], ◌∷◌, get_elem?,
}
use remodelator.Base.Text.{text_eq}
use remodelator.Web.Builtins.{Builtins}
use remodelator.Web.Estimate.Groups.{grouped_line_items}
use remodelator.Web.Estimate.Page.Forms.{DetailField, ItemField, set_detail, set_item}
use remodelator.Web.Estimate.Page.Mutations.{mutate, settle, show}
use remodelator.Web.Estimate.Page.State.{
  EstimatePage, AddItemMode, Command, is_pending, reset_add_item_panel, delete_item_mutation,
  delete_estimate_mutation,
}
use remodelator.Web.Estimate.Selection.{
  prune_selection, toggle_line_selection, toggle_all_selection, toggle_group_selection,
}
use remodelator.Web.Estimate.Types.{Estimate, NodeItem, UserProfile}
use remodelator.Web.Query.{Outcome, go_to}
use remodelator.Web.Estimate.Page.Handlers.{
  StatusChoice, ActionChoice, status_name, when, is_manual, with_lines, with_group, with_row,
  choose_action, choose_status, move_selected_items, move_line_up, move_line_down, remove_pending,
  save_details, add_manual_item, add_catalog_item_to_estimate, open_details, press_add_item,
  press_category,
}

pub data Event : Type 0 where
  -- the estimate comes, first or again, with the profile that is known then
  loaded : Estimate → Event
  -- the arrow in the header, a link to the list of estimates
  back_link : Event
  status_button actions_button window_click : Event
  pick_status : StatusChoice → Event
  pick_action : ActionChoice → Event
  -- the pencil, or "Cancel" of the open form
  details_button : Option UserProfile → Event
  detail_input : DetailField → String → Event
  submit_details : Event
  per_trade_box : Bool → Event
  bulk_group_select custom_group_input : String → Event
  move_selected : Event
  line_box : ℕ → ℕ → Bool → Event
  all_box : Bool → Event
  group_box : ℕ → Bool → Event
  add_item_button : Event
  mode_button : AddItemMode → Event
  item_input : ItemField → String → Event
  submit_manual cancel_manual : Event
  search_input : String → Event
  category_button : String → Event
  add_catalog_item : NodeItem → Event
  close_after_box : Bool → Event
  edit_line delete_line : ℕ → ℕ → Event
  close_editor confirm_delete_line cancel_delete_line : Event
  -- a line of a group is moved up or down
  move_up move_down : ℕ → ℕ → Event
  confirm_delete_estimate cancel_delete_estimate : Event
  -- the running command at a place ends
  settled : ℕ → Outcome → Event

module _ (id : String) {N : Type 0} (num : Builtins N) where
  unfoldable pub handle : Event → EstimatePage → EstimatePage
  unfolding choose_action choose_status move_selected_items move_line_up move_line_down save_details
      add_manual_item add_catalog_item_to_estimate open_details press_add_item press_category settle
      prune_selection toggle_line_selection toggle_all_selection toggle_group_selection set_detail
      set_item
  handle (loaded estimate) s = record s {
    estimate = estimate;
    selected_line_item_ids = prune_selection estimate.line_items s.selected_line_item_ids;
  }
  handle back_link s = show (go_to "/estimates" ∷ []) s
  handle status_button s = record s {
    status_menu_open = not s.status_menu_open;
    actions_menu_open = false;
  }
  handle actions_button s = record s {
    actions_menu_open = not s.actions_menu_open;
    status_menu_open = false;
  }
  handle window_click s = record s { actions_menu_open = false; status_menu_open = false }
  handle (pick_status choice) s =
      when s.status_menu_open (choose_status id (status_name choice) s) s
  handle (pick_action choice) s = when s.actions_menu_open (choose_action id choice s) s
  handle (details_button profile) s = open_details num profile s
  handle (detail_input field value) s =
      when s.editing_details (record s { detail_form = set_detail field value s.detail_form }) s
  handle submit_details s = save_details id num s
  handle (per_trade_box checked) s =
      with_lines (record s { show_per_trade_labor_totals = checked }) s
  handle (bulk_group_select value) s = with_lines (record s { bulk_group_target = value }) s
  handle (custom_group_input value) s =
      with_lines
        (when (text_eq s.bulk_group_target "__custom__")
          (record s { bulk_custom_group_name = value }) s)
        s
  handle move_selected s = with_lines (move_selected_items id s) s
  handle (line_box group i checked) s =
      with_row (grouped_line_items s.estimate.line_items) group i
        (λ line. record s {
          selected_line_item_ids = toggle_line_selection line.id checked s.selected_line_item_ids;
        })
        s
  handle (all_box checked) s =
      with_lines
        (record s {
          selected_line_item_ids =
              toggle_all_selection s.estimate.line_items checked s.selected_line_item_ids;
        })
        s
  handle (group_box group checked) s =
      with_group (get_elem? (grouped_line_items s.estimate.line_items) group)
        (λ members. record s {
          selected_line_item_ids = toggle_group_selection members checked s.selected_line_item_ids;
        })
        s
  handle add_item_button s = press_add_item s
  handle (mode_button mode) s = when s.adding_item (record s { add_item_mode = mode }) s
  handle (item_input field value) s =
      when (s.adding_item && is_manual s.add_item_mode)
        (record s { item_form = set_item field value s.item_form }) s
  handle submit_manual s = add_manual_item id num s
  handle cancel_manual s =
      when (s.adding_item && is_manual s.add_item_mode) (reset_add_item_panel s) s
  handle (search_input value) s =
      when (s.adding_item && not (is_manual s.add_item_mode)) (record s { catalog_search = value })
        s
  handle (category_button name) s =
      when (s.adding_item && not (is_manual s.add_item_mode)) (press_category name s) s
  handle (add_catalog_item item) s = add_catalog_item_to_estimate id num item s
  handle (close_after_box checked) s =
      when (s.adding_item && not (is_manual s.add_item_mode))
        (record s { close_catalog_after_add = checked }) s
  handle (edit_line group i) s =
      with_row (grouped_line_items s.estimate.line_items) group i
        (λ line. record s { editing_line_item = some line }) s
  handle (delete_line group i) s =
      with_row (grouped_line_items s.estimate.line_items) group i
        (λ line. record s { pending_delete_line_item = some line }) s
  handle close_editor s = record s { editing_line_item = none }
  handle confirm_delete_line s = remove_pending id s.pending_delete_line_item s
  handle cancel_delete_line s =
      when (not (is_pending delete_item_mutation s)) (record s { pending_delete_line_item = none })
        s
  handle (move_up group i) s = move_line_up id group i s
  handle (move_down group i) s = move_line_down id group i s
  handle confirm_delete_estimate s =
      when (s.confirm_delete_estimate_open && not (is_pending delete_estimate_mutation s))
        (mutate id Command.delete_estimate s) s
  handle cancel_delete_estimate s =
      when (not (is_pending delete_estimate_mutation s))
        (record s { confirm_delete_estimate_open = false }) s
  handle (settled i outcome) s = settle id num i outcome s

  -- the events of a visit, one after another
  unfoldable pub run : List Event → EstimatePage → EstimatePage
  unfolding handle
  run [] s = s
  run (e ∷ es) s = run es (handle e s)
