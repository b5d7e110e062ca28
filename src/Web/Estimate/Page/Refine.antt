-- ===== src/Web/Estimate/Page/Refine.antt =====
-- EstimateDetailPage.tsx: each event takes the page's mutations along its step of the promise.
use remodelator.Base.{
  ℕ, ◌≡◌, refl, String, Bool, true, false, not, ◌&&◌, Option, none, some, List, [], ◌∷◌, get_elem?,
  Bool-cases, inl, inr, if◌then◌else◌,
}
use remodelator.Web.Builtins.{Builtins}
use remodelator.Web.Estimate.Page.Bodies.{is_refused_quantity}
use remodelator.Web.Estimate.Page.Events.{Event, handle, run}
use remodelator.Web.Estimate.Groups.{grouped_line_items, move_up_index, move_down_index}
use remodelator.Web.Estimate.Page.Handlers
use remodelator.Web.Estimate.Page.Mutations.{mutate, show}
use remodelator.Web.Estimate.Page.Queue.{
  Queue, Steps, queue_of, idle, refuse, show_proposal, back, here, next,
}
use remodelator.Web.Estimate.Page.State.{
  EstimatePage, update, add_item, delete_item, bulk_move, recalc, export_json, action, set_status,
  delete_estimate, reset_panel, reset_add_item_panel, reset_item_form, is_pending,
  bulk_move_group_mutation, add_item_mutation, status_mutation,
}
use remodelator.Web.Estimate.Types.{LineItem, NodeItem, UserProfile}
use remodelator.Base.Json.{Json}
use remodelator.Base.Text.{text_eq, text_eq_refl}
use remodelator.Web.Query.{toast_error}
use remodelator.Web.Estimate.Page.Ends.{Moves, moves, mutate-Moves, settle-Moves}
use remodelator.Web.Estimate.Page.Rules.{
  stays, when-Moves, and-Moves, nor-Moves, nor_of-Moves, with_group-Moves, with_row-Moves,
  move_to-Moves, shut_actions, shut_status,
}

module _ (id : String) {N : Type 0} (num : Builtins N) where
  choose_action-Moves :
      (choice : Handlers.ActionChoice) (s : EstimatePage)
      → Moves id num (Event.pick_action choice) s (Handlers.choose_action id choice s)
  unfolding Handlers.choose_action
  choose_action-Moves Handlers.recalculate s =
      when-Moves id num _ _ s _ refl
        (λ free. shut_actions id num _ s _ (mutate-Moves id num _ recalc s refl free))
  choose_action-Moves Handlers.duplicate s =
      shut_actions id num _ s _ (mutate-Moves id num _ (action "duplicate") s refl refl)
  choose_action-Moves Handlers.create_version s =
      shut_actions id num _ s _ (mutate-Moves id num _ (action "version") s refl refl)
  choose_action-Moves Handlers.export_estimate s =
      when-Moves id num _ _ s _ refl
        (λ free. shut_actions id num _ s _ (mutate-Moves id num _ export_json s refl free))
  choose_action-Moves Handlers.unlock_or_lock s =
      elim (Bool-cases (text_eq s.estimate.status "locked")) [
        | inl e ↦
            rw e (shut_actions id num _ s _ (mutate-Moves id num _ (action "unlock") s refl refl))
        | inr e ↦
            rw e
              (shut_actions id num _ s _ (mutate-Moves id num _ (set_status "locked") s refl refl))
      ]
  choose_action-Moves Handlers.view_proposal s = moves (show_proposal (queue_of s))
  choose_action-Moves Handlers.delete_this s = moves (idle _ (queue_of s) refl)

  pick_action-Moves :
      (choice : Handlers.ActionChoice) (s : EstimatePage)
      → Moves id num (Event.pick_action choice) s (handle id num (Event.pick_action choice) s)
  unfolding handle
  pick_action-Moves choice s =
      when-Moves id num _ s.actions_menu_open s _ refl (λ shown. choose_action-Moves choice s)

  status_asked :
      (status : String) (busy : Bool) → not busy ≡ true → (text_eq status status && not busy) ≡ true
  status_asked status busy free = rw (text_eq_refl status) free

  choose_status-Moves :
      (choice : Handlers.StatusChoice) (s : EstimatePage)
      → Moves id num
          (Event.pick_status choice)
          s
          (Handlers.choose_status id (Handlers.status_name choice) s)
  unfolding Handlers.choose_status
  choose_status-Moves choice s =
      let status = Handlers.status_name choice in
      nor_of-Moves id num _ (text_eq s.estimate.status status) (is_pending status_mutation s) s _
        refl
        (λ free. shut_status id num _ s _ (
          mutate-Moves id num _ (set_status status) s
            (status_asked status (is_pending status_mutation s) free) refl))

  move_selected_items-Moves :
      (s : EstimatePage) → Moves id num Event.move_selected s (Handlers.move_selected_items id s)
  unfolding Handlers.move_selected_items
  move_selected_items-Moves s =
      nor-Moves id num _ (Handlers.is_none s.selected_line_item_ids) _
        (is_pending bulk_move_group_mutation s) s _ refl
        (λ free. mutate-Moves id num _ (bulk_move _ _) s refl free)

  remove_pending-Moves :
      (line : Option LineItem) (s : EstimatePage)
      → Moves id num Event.confirm_delete_line s (Handlers.remove_pending id line s)
  remove_pending-Moves none s = stays id num Event.confirm_delete_line s refl
  remove_pending-Moves (some line) s =
      when-Moves id num _ _ s _ refl
        (λ free. mutate-Moves id num _ (delete_item line.id) s refl free)

  save_details-Moves :
      (s : EstimatePage) → Moves id num Event.submit_details s (Handlers.save_details id num s)
  unfolding Handlers.save_details
  save_details-Moves s =
      and-Moves id num _ s.editing_details _ s _ refl
        (λ free. mutate-Moves id num _ (update _) s refl free)

  manual-Moves :
      (refused : Bool) (body : Json) (s : EstimatePage)
      → not (is_pending add_item_mutation s) ≡ true
      → Moves id num Event.submit_manual s (
          if refused
          then show (toast_error "Quantity must be a whole number" ∷ []) s
          else mutate id (add_item body reset_panel) s)
  manual-Moves true body s free = moves (refuse (queue_of s))
  manual-Moves false body s free = mutate-Moves id num _ (add_item body reset_panel) s refl free

  add_manual_item-Moves :
      (s : EstimatePage) → Moves id num Event.submit_manual s (Handlers.add_manual_item id num s)
  unfolding Handlers.add_manual_item
  add_manual_item-Moves s =
      and-Moves id num _ (s.adding_item && Handlers.is_manual s.add_item_mode) _ s _ refl
        (λ free. manual-Moves (is_refused_quantity num s.item_form.quantity) _ s free)

  add_catalog_item-Moves :
      (item : NodeItem) (s : EstimatePage)
      → Moves id num
          (Event.add_catalog_item item)
          s
          (Handlers.add_catalog_item_to_estimate id num item s)
  unfolding Handlers.add_catalog_item_to_estimate
  add_catalog_item-Moves item s =
      and-Moves id num _ (s.adding_item && not (Handlers.is_manual s.add_item_mode)) _ s _ refl
        (λ free. mutate-Moves id num _ (add_item _ _) s refl free)

  confirm_delete-Moves :
      (s : EstimatePage)
      → Moves id num Event.confirm_delete_estimate s (handle id num Event.confirm_delete_estimate s)
  unfolding handle
  confirm_delete-Moves s =
      and-Moves id num _ s.confirm_delete_estimate_open _ s _ refl
        (λ free. mutate-Moves id num _ delete_estimate s refl free)

  move_line_up-Moves :
      (group i : ℕ) (s : EstimatePage)
      → Moves id num (Event.move_up group i) s (Handlers.move_line_up id group i s)
  unfolding Handlers.move_line_up
  move_line_up-Moves group i s =
      with_group-Moves id num _ (get_elem? (grouped_line_items s.estimate.line_items) group) s _
        refl
        (λ members.
          move_to-Moves id num _ (get_elem? members i)
            (move_up_index s.estimate.line_items members i) s refl (λ l i. refl))

  move_line_down-Moves :
      (group i : ℕ) (s : EstimatePage)
      → Moves id num (Event.move_down group i) s (Handlers.move_line_down id group i s)
  unfolding Handlers.move_line_down
  move_line_down-Moves group i s =
      with_group-Moves id num _ (get_elem? (grouped_line_items s.estimate.line_items) group) s _
        refl
        (λ members.
          move_to-Moves id num _ (get_elem? members i)
            (move_down_index s.estimate.line_items members i) s refl (λ l i. refl))

  open_details-Moves :
      (profile : Option UserProfile) (s : EstimatePage)
      → Moves id num (Event.details_button profile) s (Handlers.open_details num profile s)
  unfolding Handlers.open_details
  open_details-Moves profile s = elim (Bool-cases s.editing_details) [
    | inl e ↦ simp e (moves (idle _ (queue_of s) refl))
    | inr e ↦ simp e (moves (idle _ (queue_of s) refl))
  ]

  press_add_item-Moves :
      (s : EstimatePage) → Moves id num Event.add_item_button s (Handlers.press_add_item s)
  unfolding Handlers.press_add_item reset_add_item_panel reset_item_form
  press_add_item-Moves s = elim (Bool-cases s.adding_item) [
    | inl e ↦ simp e (moves (idle _ (queue_of s) refl))
    | inr e ↦ simp e (moves (idle _ (queue_of s) refl))
  ]

  ruleset handlers = (
    moves, idle, when-Moves, and-Moves, with_group-Moves, with_row-Moves, choose_status-Moves,
    pick_action-Moves, move_selected_items-Moves, remove_pending-Moves, save_details-Moves,
    add_manual_item-Moves, add_catalog_item-Moves, confirm_delete-Moves, move_line_up-Moves,
    move_line_down-Moves, open_details-Moves, press_add_item-Moves, settle-Moves,
  )

  -- Every event takes the mutations of the page along its step of the promise.
  handle-Moves : (e : Event) (s : EstimatePage) → Moves id num e s (handle id num e s)
  unfolding handle Handlers.press_category reset_add_item_panel reset_item_form
  handle-Moves Event.back_link s = moves (back (queue_of s))
  handle-Moves (Event.loaded estimate) s = search handlers
  handle-Moves _ s = search handlers

  taken :
      {e : Event} {es : List Event} {s t : EstimatePage} {r : Queue}
      → Moves id num e s t
      → Steps id num es (queue_of t) r
      → Steps id num (e ∷ es) (queue_of s) r
  taken (moves step) steps = next step steps

  pub run-Steps :
      (es : List Event) (s : EstimatePage)
      → Steps id num es (queue_of s) (queue_of (run id num es s))
  unfolding run
  run-Steps [] s = here (queue_of s)
  run-Steps (e ∷ es) s = taken (handle-Moves e s) (run-Steps es (handle id num e s))
