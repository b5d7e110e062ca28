-- ===== src/Web/Estimate/Editor.antt =====
-- apps/web/src/features/estimates/LineItemEditor.tsx: the dialog of a line.
pub mod Laws
use Prim.Native.String.{◌++◌ as text_append}
use remodelator.Base.{
  String, Bool, true, false, not, ◌&&◌, ◌||◌, Option, none, some, List, [], ◌∷◌, ◌++◌,
  if◌then◌else◌,
}
use remodelator.Base.Json.{Json}
use remodelator.Base.Text.{text_eq, is_empty, or_text, trim}
use remodelator.Web.Api.Calls.{Estimates, update_line_item, quickstart_estimate}
use remodelator.Web.Builtins.{Builtins, some_number, text_if_given, object_of}
use remodelator.Web.Estimate.Page.Bodies.{text_or}
use remodelator.Web.Estimate.Types.{LineItem}
use remodelator.Web.Format.{text, format_decimal}
use remodelator.Web.Query.{
  Effect, Outcome, succeeded, failed, failed_otherwise, invalidate, estimate_key, estimates_key,
  toast_success, toast_error, close, error_text,
}

pub record EditorForm : Type 0 where
  pub quantity : String
  pub unit_price : String
  pub item_markup_pct : String
  pub labor_hours : String
  pub labor_trade : String
  pub remodeler_labor_hours : String
  pub plumber_labor_hours : String
  pub tinner_labor_hours : String
  pub electrician_labor_hours : String
  pub designer_labor_hours : String
  pub labor_rate : String
  pub discount_value : String
  pub discount_is_percent : Bool
  pub group_name : Option String

pub record Editor : Type 0 where
  pub line_item : LineItem
  pub form : EditorForm
  pub saving : Bool
  pub calls : List Estimates
  pub effects : List Effect

abbrev number_or_zero : {N : Type 0} → Builtins N → Option N → N
number_or_zero num none = num.zero
number_or_zero num (some n) = n

abbrev json_of : {N : Type 0} → Builtins N → Option N → Option Json
json_of num none = none
json_of num (some n) = some_number num n

-- `x || undefined` for a text that may be missing
abbrev given_text : Option String → Option Json
given_text none = none
given_text (some s) = text_if_given s

module _ {N : Type 0} (num : Builtins N) where
  unfoldable pub parse_decimal_or_undefined : String → Option N
  parse_decimal_or_undefined value =
      let parsed = num.parse_float value in if num.is_nan parsed then none else some parsed

  unfoldable pub parse_integer_or_undefined : String → Option N
  parse_integer_or_undefined value =
      if is_empty (trim value)
      then none
      else let parsed = num.to_number value in
        if not (num.is_finite parsed) || not (num.is_integer parsed) then none else some parsed

  -- The hours of the five trades are those of the line: the types say that they are always there.
  unfoldable pub initial_form : LineItem → EditorForm
  unfolding format_decimal
  initial_form line = record {
    quantity =
        if num.is_finite (num.to_number line.quantity)
        then num.to_text (num.trunc (num.to_number line.quantity))
        else line.quantity;
    unit_price = format_decimal num (text line.unit_price);
    item_markup_pct = format_decimal num (text line.item_markup_pct);
    labor_hours = format_decimal num (text line.labor_hours);
    labor_trade = or_text line.labor_trade "remodeler";
    remodeler_labor_hours = format_decimal num (text line.remodeler_labor_hours);
    plumber_labor_hours = format_decimal num (text line.plumber_labor_hours);
    tinner_labor_hours = format_decimal num (text line.tinner_labor_hours);
    electrician_labor_hours = format_decimal num (text line.electrician_labor_hours);
    designer_labor_hours = format_decimal num (text line.designer_labor_hours);
    labor_rate = format_decimal num (text line.labor_rate);
    discount_value = format_decimal num (text line.discount_value);
    discount_is_percent = line.discount_is_percent;
    group_name = line.group_name;
  }

  abbrev hours_or_zero : String → N
  hours_or_zero value = number_or_zero num (parse_decimal_or_undefined value)

  unfoldable pub editor_hours : EditorForm → N
  unfolding parse_decimal_or_undefined
  editor_hours f =
      num.add
        (num.add
          (num.add
            (num.add (hours_or_zero f.remodeler_labor_hours) (hours_or_zero f.plumber_labor_hours))
            (hours_or_zero f.tinner_labor_hours))
          (hours_or_zero f.electrician_labor_hours))
        (hours_or_zero f.designer_labor_hours)

  abbrev decimal_member : String → Option Json
  decimal_member value = json_of num (parse_decimal_or_undefined value)

  -- the object of `updateLineItem`
  abbrev pub editor_entries : EditorForm → List (String × Option Json)
  editor_entries f =
      ("quantity", json_of num (parse_integer_or_undefined f.quantity))
      ∷ ("unit_price", decimal_member f.unit_price)
      ∷ ("item_markup_pct", decimal_member f.item_markup_pct)
      ∷ ("labor_hours", some_number num (editor_hours f))
      ∷ ("labor_trade", text_if_given f.labor_trade)
      ∷ ("remodeler_labor_hours", decimal_member f.remodeler_labor_hours)
      ∷ ("plumber_labor_hours", decimal_member f.plumber_labor_hours)
      ∷ ("tinner_labor_hours", decimal_member f.tinner_labor_hours)
      ∷ ("electrician_labor_hours", decimal_member f.electrician_labor_hours)
      ∷ ("designer_labor_hours", decimal_member f.designer_labor_hours)
      ∷ ("discount_value", decimal_member f.discount_value)
      ∷ ("discount_is_percent", some (Json.flag f.discount_is_percent))
      ∷ ("group_name", given_text f.group_name)
      ∷ []

  unfoldable pub editor_body : EditorForm → Json
  unfolding parse_integer_or_undefined editor_hours
  editor_body f = object_of (editor_entries f)

  abbrev is_missing : Option N → Bool
  is_missing none = true
  is_missing (some n) = false

  -- `onSubmit`; the button is disabled while the update runs
  unfoldable pub submit_editor : String → Editor → Editor
  unfolding editor_body
  submit_editor estimate_id s =
      if s.saving
      then s
      else if not (is_empty s.form.quantity)
          && is_missing (parse_integer_or_undefined s.form.quantity)
      then record s { effects = s.effects ++ toast_error "Quantity must be a whole number" ∷ [] }
      else record s {
        saving = true;
        calls = s.calls ++ update_line_item estimate_id s.line_item.id (editor_body s.form) ∷ [];
      }

  -- `onSuccess` and `onError`
  unfoldable pub editor_saved : String → Outcome → Editor → Editor
  editor_saved estimate_id (succeeded reply) s = record s {
    saving = false;
    effects =
        s.effects
        ++ invalidate (estimate_key estimate_id)
          ∷ invalidate estimates_key
          ∷ toast_success (text_append s.line_item.item_name " updated")
          ∷ close
          ∷ [];
  }
  editor_saved estimate_id (failed message) s = record s {
    saving = false;
    effects = s.effects ++ toast_error message ∷ [];
  }
  editor_saved estimate_id failed_otherwise s = record s {
    saving = false;
    effects = s.effects ++ toast_error "Update failed" ∷ [];
  }
