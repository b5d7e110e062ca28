-- ===== src/Web/Tests/Page.antt =====
-- The estimate page, its assist panel and its line editor at concrete states.
use remodelator.Base.{
  ℕ, suc, ◌+◌, ◌≡◌, refl, ◌⊎◌, String, Bool, true, false, not, ◌&&◌, Option, none, some, List, [],
  ◌∷◌, ◌++◌, any, map, if◌then◌else◌,
}
use remodelator.Base.Json.{Json}
use remodelator.Base.Text.{text_eq, decimal, trim}
use remodelator.Web.Api.Calls.{Llm}
use remodelator.Web.Builtins.{Builtins}
use remodelator.Web.Estimate.Assist.{
  LlmSuggestion, AssistEvent, select_item, get_suggestion, suggested, assist_opened, assist_handle,
  assist_run, apply_request,
}
use remodelator.Web.Estimate.Assist.Laws.{assist_run-apply}
use remodelator.Web.Estimate.Editor.{Editor, initial_form, submit_editor}
use remodelator.Web.Estimate.Editor.Laws.{SavesWhole, submit_editor-SavesWhole}
use remodelator.Web.Estimate.Page.Drain.{drain-idle, settle_failed}
use remodelator.Web.Estimate.Page.Events.{
  back_link, Event, loaded, status_button, actions_button, pick_action, details_button,
  submit_details, line_box, confirm_delete_estimate, settled, run,
}
use remodelator.Web.Estimate.Groups.{group_name_of}
use remodelator.Web.Estimate.Page.Handlers.{delete_this, add_manual_item}
use remodelator.Web.Estimate.Page.Leave.{is_back, drops, run-asked}
use remodelator.Web.Estimate.Page.Removal.{deletes}
use remodelator.Web.Estimate.Page.Lone.{Alone, run-Alone}
use remodelator.Web.Estimate.Page.Mutations.{settle, drop_at}
use remodelator.Web.Estimate.Page.Quantity.{IsNumbers, AddsWhole, add_manual_item-AddsWhole}
use remodelator.Web.Estimate.Page.Selected.{opened-Sound}
use remodelator.Web.Estimate.Page.Keeps.{Selects}
use remodelator.Web.Estimate.Page.State.{
  EstimatePage, Command, empty_item_form, is_pending, recalc, recalc_mutation, update_mutation,
  manual, opened,
}
use remodelator.Web.Estimate.Types.{Estimate}
use remodelator.Web.Query.{succeeded, failed, toast_error}
use remodelator.Web.Tests.{line, lines}

-- the numbers that a few texts stand for; `none` is NaN
abbrev pub digits : String → Option ℕ
digits s = if text_eq s "0" then some 0 else if text_eq s "2" then some 2 else none

abbrev number_of : String → Option ℕ
number_of s = if text_eq s "" then some 0 else digits s

abbrev plus : Option ℕ → Option ℕ → Option ℕ
plus (some a) (some b) = some (a + b)
plus _ _ = none

abbrev is_number : Option ℕ → Bool
is_number (some n) = true
is_number none = false

abbrev above_zero : Option ℕ → Bool
above_zero (some (suc n)) = true
above_zero _ = false

abbrev shown : Option ℕ → String
shown none = "NaN"
shown (some n) = decimal n

abbrev pub numbers : Builtins (Option ℕ)
numbers = record {
  parse_float = digits;
  to_number = number_of;
  add = plus;
  zero = some 0;
  one = some 1;
  is_nan = λ n. not (is_number n);
  is_zero = λ n. is_number n && not (above_zero n);
  is_finite = is_number;
  is_integer = is_number;
  is_positive = above_zero;
  trunc = λ n. n;
  to_fixed = shown;
  to_text = shown;
  to_json = λ n. Json.number (shown n);
  in_text = λ j. "undefined";
  to_lower_case = λ s. s;
  to_upper_case = λ s. s;
}

abbrev estimate : Estimate
estimate = record {
  id = "e1";
  title = "Kitchen";
  status = "draft";
  version = 1;
  customer_name = "Ann";
  customer_email = "ann@x.com";
  customer_phone = "";
  job_address = "";
  estimate_markup_pct = "0";
  tax_rate_pct = "0";
  remodeler_labor_rate = "2";
  plumber_labor_rate = "0";
  tinner_labor_rate = "0";
  electrician_labor_rate = "0";
  designer_labor_rate = "0";
  subtotal = "40";
  tax = "0";
  total = "40";
  updated_at = none;
  created_at = none;
  line_items = lines;
}

-- two lines of a group are ticked and one goes; the details are sent twice, the estimate is deleted,
-- and the link to the list is followed
abbrev visit : List Event
visit =
    line_box 0 0 true
    ∷ line_box 0 1 true
    ∷ loaded (record estimate { line_items = line "a" (some "Bath") ∷ [] })
    ∷ status_button
    ∷ details_button none
    ∷ submit_details
    ∷ submit_details
    ∷ actions_button
    ∷ pick_action delete_this
    ∷ confirm_delete_estimate
    ∷ back_link
    ∷ settled 1 (succeeded Json.null)
    ∷ []

run-Alone_example : Alone update_mutation (run "e1" numbers visit (opened estimate)).in_flight
run-Alone_example = run-Alone "e1" numbers estimate visit update_mutation refl

opened-Sound_example :
    ((run "e1" numbers visit (opened estimate)).actions_menu_open
        && (run "e1" numbers visit (opened estimate)).status_menu_open
      ≡ false)
    × Selects
        (run "e1" numbers visit (opened estimate)).selected_line_item_ids
        (run "e1" numbers visit (opened estimate)).estimate.line_items
opened-Sound_example = opened-Sound "e1" numbers estimate visit

run-asked_example :
    (any (deletes "e1") (run "e1" numbers visit (opened estimate)).calls ≡ true)
    ⊎ ((any is_back visit ≡ true)
        × (any drops (run "e1" numbers visit (opened estimate)).effects ≡ false))
unfolding run opened group_name_of trim
run-asked_example = run-asked "e1" numbers estimate visit refl

-- a recalculation and a change of the status run
abbrev busy : EstimatePage
busy = record (opened estimate) {
  in_flight =
      record { command = recalc; observed = true }
      ∷ record { command = Command.set_status "locked"; observed = true }
      ∷ [];
}

drain-idle_example :
    ((run "e1" numbers
        (map (settled 0) (succeeded Json.null ∷ failed "Locked" ∷ []))
        busy).in_flight
      ≡ [])
    × (is_pending recalc_mutation
          (run "e1" numbers (map (settled 0) (succeeded Json.null ∷ failed "Locked" ∷ [])) busy)
        ≡ false)
drain-idle_example =
    drain-idle "e1" numbers (succeeded Json.null ∷ failed "Locked" ∷ []) busy recalc_mutation refl

settle_failed_example :
    settle "e1" numbers 0 (failed "Locked") busy
    ≡ record busy { in_flight = drop_at busy.in_flight 0; effects = toast_error "Locked" ∷ [] }
unfolding opened
settle_failed_example =
    settle_failed "e1" numbers 0 (record { command = recalc; observed = true }) "Locked" busy refl
      refl

numbers-IsNumbers : IsNumbers numbers
numbers-IsNumbers = record { one_integer = refl; one_positive = refl; empty_zero = refl }

-- the manual form with a name and a quantity
abbrev filled : EstimatePage
filled = record (opened estimate) {
  adding_item = true;
  add_item_mode = manual;
  item_form = record empty_item_form { item_name = "Tile"; quantity = "2" };
}

add_manual_item-AddsWhole_example :
    AddsWhole "e1" numbers numbers-IsNumbers filled (add_manual_item "e1" numbers filled)
add_manual_item-AddsWhole_example = add_manual_item-AddsWhole "e1" numbers numbers-IsNumbers filled

abbrev suggestion : LlmSuggestion
suggestion = record { item_name = "Tile"; current_unit_price = "10"; suggested_unit_price = "2" }

abbrev asking : List AssistEvent
asking = select_item "b" ∷ get_suggestion ∷ suggested suggestion ∷ []

assist_run-apply_example :
    ((assist_run "e1" numbers asking (assist_opened lines)).selected_item_id ≡ some "b")
    × ((assist_handle "e1" numbers AssistEvent.apply
          (assist_run "e1" numbers asking (assist_opened lines))).calls
        ≡ (assist_run "e1" numbers asking (assist_opened lines)).calls
          ++ Llm.apply_llm_suggestion (apply_request "e1" numbers "b" suggestion) ∷ [])
unfolding assist_run assist_opened
assist_run-apply_example = assist_run-apply "e1" numbers lines asking "b" suggestion refl refl refl

abbrev editor : Editor
editor = record {
  line_item = line "b" none;
  form = record (initial_form numbers (line "b" none)) { quantity = "2" };
  saving = false;
  calls = [];
  effects = [];
}

submit_editor-SavesWhole_example :
    SavesWhole numbers "e1" editor (submit_editor numbers "e1" editor)
submit_editor-SavesWhole_example = submit_editor-SavesWhole numbers "e1" editor
