-- ===== src/Web/Estimate/Page/Keeps.antt =====
-- EstimateDetailPage.tsx: which handlers keep the menus and the ticked lines sound.
use remodelator.Base.{
  ℕ, ◌≡◌, refl, String, Bool, true, false, not, ◌&&◌, ◌||◌, Option, none, some, List, any,
  get_elem?, arith, Bool-cases, inl, inr, if◌then◌else◌,
}
use remodelator.Base.Json.{Json}
use remodelator.Base.Set.{Ids, has}
use remodelator.Base.Text.{text_eq}
use remodelator.Web.Builtins.{Builtins}
use remodelator.Web.Estimate.Page.Handlers
use remodelator.Web.Estimate.Page.Mutations.{
  mutate, drop_at, settle, settle_one, ended, on_success, on_error, invalidate_estimate,
}
use remodelator.Web.Estimate.Page.State.{
  EstimatePage, Kind, is_pending, Command, Running, After, reset_add_item_panel, reset_item_form,
}
use remodelator.Web.Estimate.Selection.{line_ids}
use remodelator.Web.Estimate.Types.{LineItem, NodeItem, UserProfile}
use remodelator.Web.Query.{Outcome, succeeded, failed, failed_otherwise}

-- every id that is selected is that of a line
abbrev pub Selects : Ids → List LineItem → Type 0
Selects ids lines = (x : String) → has ids x ≡ true → any (text_eq x) (line_ids lines) ≡ true

-- not both menus are open, and what is ticked are lines of the estimate
pub record Shows (actions_open status_open : Bool) (ids : Ids) (lines : List LineItem)
    : Type 0 where
  pub one_menu : (actions_open && status_open) ≡ false
  pub ticked : Selects ids lines

abbrev pub Sound : EstimatePage → Type 0
Sound s =
    Shows s.actions_menu_open s.status_menu_open s.selected_line_item_ids s.estimate.line_items

pub data Keeps (s t : EstimatePage) : Type 0 where
  keeps : (Sound s → Sound t) → Keeps s t

pub same : {s : EstimatePage} → Keeps s s
same = keeps (λ h. h)

pub when-Keeps :
    (b : Bool) (s target : EstimatePage) → Keeps s target → Keeps s (Handlers.when b target s)
when-Keeps true s target h = h
when-Keeps false s target h = same

pub with_group-Keeps :
    (group : Option (String × List LineItem)) (s : EstimatePage) (f : List LineItem → EstimatePage)
    → ((name : String) (members : List LineItem)
        → group ≡ some (name, members)
        → Keeps s (f members))
    → Keeps s (Handlers.with_group group f s)
with_group-Keeps none s f h = same
with_group-Keeps (some (name, members)) s f h = h name members refl

pub with_line-Keeps :
    (line : Option LineItem) (s : EstimatePage) (f : LineItem → EstimatePage)
    → ((l : LineItem) → line ≡ some l → Keeps s (f l))
    → Keeps s (Handlers.with_line line f s)
with_line-Keeps none s f h = same
with_line-Keeps (some line) s f h = h line refl

pub weaken : (s t u : EstimatePage) → (Sound s → Sound t) → Keeps t u → Keeps s u
weaken s t u f (keeps g) = keeps (λ h. g (f h))

-- a selection of which each id that is new is that of a line
pub select :
    (s : EstimatePage) (ids : Ids)
    → (Sound s → Selects ids s.estimate.line_items)
    → Keeps s (record s { selected_line_item_ids = ids })
select s ids h = keeps (λ sound. record { one_menu = sound.one_menu; ticked = h sound })

pub close_actions-Keeps : (s t : EstimatePage) → Keeps s t → Keeps s (Handlers.close_actions t)
close_actions-Keeps s t (keeps f) = keeps (λ h. record { one_menu = refl; ticked = (f h).ticked })

pub close_status-Keeps :
    (s t : EstimatePage) → Keeps s t → Keeps s (record t { status_menu_open = false })
close_status-Keeps s t (keeps f) =
    keeps (λ h. record { one_menu = ground arith; ticked = (f h).ticked })

pub if-Keeps :
    (b : Bool) (s t u : EstimatePage) → Keeps s t → Keeps s u → Keeps s (if b then t else u)
if-Keeps true s t u h k = h
if-Keeps false s t u h k = k

pub mutate-Keeps : (id : String) (c : Command) (s : EstimatePage) → Keeps s (mutate id c s)
unfolding mutate
mutate-Keeps id c s = keeps (λ h. h)

ruleset menus = (same, when-Keeps, close_actions-Keeps, close_status-Keeps, mutate-Keeps, keeps)

module _ (id : String) where
  pub choose_action-Keeps :
      (choice : Handlers.ActionChoice) (s : EstimatePage)
      → Keeps s (Handlers.choose_action id choice s)
  unfolding Handlers.choose_action
  choose_action-Keeps Handlers.recalculate s = search menus
  choose_action-Keeps Handlers.unlock_or_lock s = close_actions-Keeps s _ (mutate-Keeps id _ s)
  choose_action-Keeps Handlers.view_proposal s = close_actions-Keeps s _ (keeps (λ h. h))
  choose_action-Keeps Handlers.delete_this s = close_actions-Keeps s _ (keeps (λ h. h))
  choose_action-Keeps _ s = search menus

  pub choose_status-Keeps :
      (status : String) (s : EstimatePage) → Keeps s (Handlers.choose_status id status s)
  unfolding Handlers.choose_status
  choose_status-Keeps status s =
      when-Keeps (not (text_eq s.estimate.status status || is_pending Kind.status_mutation s)) s
        (record (mutate id (Command.set_status status) s) { status_menu_open = false })
        (close_status-Keeps s (mutate id (Command.set_status status) s)
          (mutate-Keeps id (Command.set_status status) s))

  pub move_selected-Keeps : (s : EstimatePage) → Keeps s (Handlers.move_selected_items id s)
  unfolding Handlers.move_selected_items
  move_selected-Keeps s = search menus

  pub move_to-Keeps :
      (line : Option LineItem) (index : Option ℕ) (s : EstimatePage)
      → Keeps s (Handlers.move_to id line index s)
  move_to-Keeps (some line) (some index) s = mutate-Keeps id _ s
  move_to-Keeps (some line) none s = same
  move_to-Keeps none index s = same

  pub move_up-Keeps :
      (group i : ℕ) (s : EstimatePage) → Keeps s (Handlers.move_line_up id group i s)
  unfolding Handlers.move_line_up
  move_up-Keeps group i s = search (with_group-Keeps, move_to-Keeps)

  pub move_down-Keeps :
      (group i : ℕ) (s : EstimatePage) → Keeps s (Handlers.move_line_down id group i s)
  unfolding Handlers.move_line_down
  move_down-Keeps group i s = search (with_group-Keeps, move_to-Keeps)

  pub remove_pending-Keeps :
      (line : Option LineItem) (s : EstimatePage) → Keeps s (Handlers.remove_pending id line s)
  remove_pending-Keeps none s = same
  remove_pending-Keeps (some line) s = search menus

  pub invalidate-Keeps : (s t : EstimatePage) → Keeps s t → Keeps s (invalidate_estimate id t)
  unfolding invalidate_estimate
  invalidate-Keeps s t (keeps f) = keeps f

  module _ {N : Type 0} (num : Builtins N) where
    pub save_details-Keeps : (s : EstimatePage) → Keeps s (Handlers.save_details id num s)
    unfolding Handlers.save_details
    save_details-Keeps s = search menus

    pub manual_item-Keeps : (s : EstimatePage) → Keeps s (Handlers.add_manual_item id num s)
    unfolding Handlers.add_manual_item
    manual_item-Keeps s = search (when-Keeps, if-Keeps, mutate-Keeps, keeps)

    pub catalog_item-Keeps :
        (item : NodeItem) (s : EstimatePage)
        → Keeps s (Handlers.add_catalog_item_to_estimate id num item s)
    unfolding Handlers.add_catalog_item_to_estimate
    catalog_item-Keeps item s = search menus

    pub on_success-Keeps :
        (c : Command) (observed : Bool) (reply : Json) (s : EstimatePage)
        → Keeps s (on_success id num c observed reply s)
    unfolding on_success reset_add_item_panel reset_item_form invalidate_estimate
    on_success-Keeps (Command.bulk_move lines group) observed reply s =
        keeps (λ h. record { one_menu = h.one_menu; ticked = λ x e. cc })
    on_success-Keeps (Command.add_item item after) false reply s = keeps (λ h. h)
    on_success-Keeps (Command.add_item item After.reset_panel) true reply s = keeps (λ h. h)
    on_success-Keeps (Command.add_item item (After.fill_form x)) true reply s = keeps (λ h. h)
    on_success-Keeps (Command.update form) observed reply s = keeps (λ h. h)
    on_success-Keeps _ observed reply s = keeps (λ h. h)

    pub on_error-Keeps :
        (c : Command) (error : Option String) (s : EstimatePage)
        → Keeps s (on_error id num c error s)
    unfolding on_error
    on_error-Keeps (Command.update form) error s = keeps (λ h. h)
    on_error-Keeps _ error s = keeps (λ h. h)

    pub ended-Keeps :
        (r : Running) (outcome : Outcome) (s : EstimatePage) → Keeps s (ended id num r outcome s)
    ended-Keeps r (succeeded reply) s = on_success-Keeps r.command r.observed reply s
    ended-Keeps r (failed message) s = on_error-Keeps r.command (some message) s
    ended-Keeps r failed_otherwise s = on_error-Keeps r.command none s

    pub settle_one-Keeps :
        (r : Option Running) (outcome : Outcome) (s : EstimatePage)
        → Keeps s (settle_one id num r outcome s)
    settle_one-Keeps none outcome s = same
    settle_one-Keeps (some r) outcome s = ended-Keeps r _ s

    pub settle-Keeps :
        (i : ℕ) (outcome : Outcome) (s : EstimatePage) → Keeps s (settle id num i outcome s)
    unfolding settle
    settle-Keeps i outcome s =
        let from : Keeps (record s { in_flight = drop_at s.in_flight i })
            (settle id num i outcome s) =
          settle_one-Keeps (get_elem? s.in_flight i) outcome _ in
        weaken s (record s { in_flight = drop_at s.in_flight i }) _ (λ h. h) from

    pub open_details-Keeps :
        (profile : Option UserProfile) (s : EstimatePage)
        → Keeps s (Handlers.open_details num profile s)
    unfolding Handlers.open_details
    open_details-Keeps profile s = elim (Bool-cases s.editing_details) [
      | inl e ↦ simp e (keeps (λ h. h))
      | inr e ↦ simp e (keeps (λ h. h))
    ]

pub press_add_item-Keeps : (s : EstimatePage) → Keeps s (Handlers.press_add_item s)
unfolding Handlers.press_add_item reset_add_item_panel reset_item_form
press_add_item-Keeps s = search (if-Keeps, keeps)
