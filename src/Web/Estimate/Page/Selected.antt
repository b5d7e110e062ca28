-- ===== src/Web/Estimate/Page/Selected.antt =====
-- EstimateDetailPage.tsx: the menus and the ticked lines, whatever happens.
use remodelator.Base.{
  ℕ, ◌≡◌, refl, sym, ◌∙◌, subst, String, Bool, true, false, ◌&&◌, some, List, [], ◌∷◌, any,
  get_elem?, arith, Bool-cases, inl, inr,
}
use remodelator.Base.Set.{Ids, has}
use remodelator.Base.Compare.{text_eq-true}
use remodelator.Base.Text.{text_eq}
use remodelator.Web.Builtins.{Builtins}
use remodelator.Web.Estimate.Groups.{grouped_line_items}
use remodelator.Web.Estimate.Page.Events.{Event, handle, run}
use remodelator.Web.Estimate.Page.Handlers
use remodelator.Web.Estimate.Page.State.{
  EstimatePage, reset_add_item_panel, reset_item_form, opened,
}
use remodelator.Web.Estimate.Selection.{
  line_ids, prune_selection, toggle_line_selection, toggle_all_selection, toggle_group_selection,
}
use remodelator.Web.Estimate.Selection.Laws.{
  has-prune_selection, has-toggle_line_selection, has-toggle_all_selection,
  has-toggle_group_selection,
}
use remodelator.Web.Estimate.Types.{Estimate, LineItem}
use remodelator.Web.Estimate.Groups.Members.{group-ids, line_of-ids}
use remodelator.Web.Estimate.Page.Keeps.{
  Sound, Selects, Keeps, keeps, same, when-Keeps, with_group-Keeps, with_line-Keeps, select,
  mutate-Keeps, choose_action-Keeps, choose_status-Keeps, move_selected-Keeps, move_up-Keeps,
  move_down-Keeps, remove_pending-Keeps, save_details-Keeps, manual_item-Keeps, catalog_item-Keeps,
  settle-Keeps, open_details-Keeps, press_add_item-Keeps,
}

-- the boxes of a line, of all lines and of a group
has-one :
    (x id : String) (checked : Bool) (ids : Ids) (lines : List LineItem)
    → Selects ids lines
    → any (text_eq id) (line_ids lines) ≡ true
    → has (toggle_line_selection id checked ids) x ≡ true
    → any (text_eq x) (line_ids lines) ≡ true
has-one x id checked ids lines h line e = elim (Bool-cases (text_eq id x)) [
  | inl same ↦
      subst (λ (n : String). any (text_eq n) (line_ids lines) ≡ true) (text_eq-true id x same) line
  | inr other ↦ h x (sym (rw (has-toggle_line_selection x id checked ids, other) refl) ∙ e)
]

has-group :
    (x : String) (checked : Bool) (members : List LineItem) (ids : Ids) (lines : List LineItem)
    → Selects ids lines
    → (any (text_eq x) (line_ids members) ≡ true → any (text_eq x) (line_ids lines) ≡ true)
    → has (toggle_group_selection members checked ids) x ≡ true
    → any (text_eq x) (line_ids lines) ≡ true
has-group x checked members ids lines h sub e =
    elim (Bool-cases (any (text_eq x) (line_ids members))) [
      | inl member ↦ sub member
      | inr other ↦
          h x (sym (rw (has-toggle_group_selection x members checked ids, other) refl) ∙ e)
    ]

has-all :
    (checked : Bool) (lines : List LineItem) (ids : Ids)
    → Selects (toggle_all_selection lines checked ids) lines
unfolding toggle_all_selection
has-all true lines ids x e = sym (has-toggle_all_selection x lines ids) ∙ e
has-all false lines ids x e = cc

has-pruned : (lines : List LineItem) (ids : Ids) → Selects (prune_selection lines ids) lines
has-pruned lines ids x e = let e' = sym (has-prune_selection x lines ids) ∙ e in ground arith

-- the rows of the table
row-Keeps :
    (s : EstimatePage) (group i : ℕ) (f : LineItem → EstimatePage)
    → ((line : LineItem)
        → any (text_eq line.id) (line_ids s.estimate.line_items) ≡ true
        → Keeps s (f line))
    → Keeps s (Handlers.with_row (grouped_line_items s.estimate.line_items) group i f s)
row-Keeps s group i f h =
    with_group-Keeps (get_elem? (grouped_line_items s.estimate.line_items) group) s _
      (λ name members e. with_line-Keeps (get_elem? members i) s f (λ line e'. h line (
        group-ids line.id s.estimate.line_items group name members e
          (line_of-ids members i line e'))))

module _ (id : String) {N : Type 0} (num : Builtins N) where
  line_box-Keeps :
      (group i : ℕ) (checked : Bool) (s : EstimatePage)
      → Keeps s (handle id num (Event.line_box group i checked) s)
  unfolding handle
  line_box-Keeps group i checked s = row-Keeps s group i _ (λ line member.
      select s _ (λ h x e. has-one x line.id checked s.selected_line_item_ids _ h.ticked member e))

  group_box-Keeps :
      (group : ℕ) (checked : Bool) (s : EstimatePage)
      → Keeps s (handle id num (Event.group_box group checked) s)
  unfolding handle
  group_box-Keeps group checked s =
      with_group-Keeps (get_elem? (grouped_line_items s.estimate.line_items) group) s _
        (λ name members e. select s _ (λ h x e'.
          has-group x checked members s.selected_line_item_ids _ h.ticked
            (group-ids x s.estimate.line_items group name members e) e'))

  all_box-Keeps :
      (checked : Bool) (s : EstimatePage) → Keeps s (handle id num (Event.all_box checked) s)
  unfolding handle
  all_box-Keeps checked s =
      when-Keeps _ s _
        (select s _ (λ h. has-all checked s.estimate.line_items s.selected_line_item_ids))

  loaded-Keeps :
      (estimate : Estimate) (s : EstimatePage) → Keeps s (handle id num (Event.loaded estimate) s)
  unfolding handle
  loaded-Keeps estimate s = keeps (λ h. record {
    one_menu = h.one_menu;
    ticked = has-pruned estimate.line_items s.selected_line_item_ids;
  })

  ruleset handlers = (
    same, keeps, when-Keeps, mutate-Keeps, choose_action-Keeps, choose_status-Keeps,
    move_selected-Keeps, move_up-Keeps, move_down-Keeps, remove_pending-Keeps, save_details-Keeps,
    manual_item-Keeps, catalog_item-Keeps, settle-Keeps, open_details-Keeps, press_add_item-Keeps,
    line_box-Keeps, group_box-Keeps, all_box-Keeps, loaded-Keeps,
  )

  handle-Keeps : (e : Event) (s : EstimatePage) → Keeps s (handle id num e s)
  unfolding handle Handlers.press_category reset_add_item_panel reset_item_form
  handle-Keeps Event.status_button s = keeps (λ h. record { one_menu = refl; ticked = h.ticked })
  handle-Keeps Event.actions_button s =
      keeps (λ h. record { one_menu = ground arith; ticked = h.ticked })
  handle-Keeps Event.window_click s = keeps (λ h. record { one_menu = refl; ticked = h.ticked })
  handle-Keeps (Event.edit_line group i) s =
      row-Keeps s group i (λ line. record s { editing_line_item = some line })
        (λ line member. keeps (λ h. h))
  handle-Keeps (Event.delete_line group i) s =
      row-Keeps s group i (λ line. record s { pending_delete_line_item = some line })
        (λ line member. keeps (λ h. h))
  handle-Keeps (Event.line_box group i checked) s = line_box-Keeps group i checked s
  handle-Keeps (Event.group_box group checked) s = group_box-Keeps group checked s
  handle-Keeps (Event.all_box checked) s = all_box-Keeps checked s
  handle-Keeps (Event.loaded estimate) s = loaded-Keeps estimate s
  handle-Keeps _ s = search handlers

  apply : {s t : EstimatePage} → Keeps s t → Sound s → Sound t
  apply (keeps f) h = f h

  run-Sound : (es : List Event) (s : EstimatePage) → Sound s → Sound (run id num es s)
  unfolding run
  run-Sound [] s h = h
  run-Sound (e ∷ es) s h = run-Sound es (handle id num e s) (apply (handle-Keeps e s) h)

  -- Whatever happens to the page, at most one of its two menus is open, and every selected id is that of a
  -- line of the estimate that is shown.
  pub opened-Sound :
      (estimate : Estimate) (es : List Event)
      → ((run id num es (opened estimate)).actions_menu_open
            && (run id num es (opened estimate)).status_menu_open
          ≡ false)
        × Selects
            (run id num es (opened estimate)).selected_line_item_ids
            (run id num es (opened estimate)).estimate.line_items
  unfolding opened
  opened-Sound estimate es =
      let h = run-Sound es (opened estimate) (record { one_menu = refl; ticked = λ x e. cc }) in
      (h.one_menu, h.ticked)
