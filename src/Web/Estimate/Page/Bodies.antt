-- ===== src/Web/Estimate/Page/Bodies.antt =====
-- EstimateDetailPage.tsx: the objects that the forms of the page send.
use remodelator.Base.{String, Bool, not, ◌&&◌, Option, none, some, [], ◌∷◌, if◌then◌else◌}
use remodelator.Base.Json.{Json}
use remodelator.Base.Text.{text_eq, or_text, is_empty}
use remodelator.Web.Builtins.{
  Builtins, float_or_zero, some_number, float_if_given, text_if_given, object_of,
}
use remodelator.Web.Estimate.Page.State.{DetailForm, ItemForm}
use remodelator.Web.Estimate.Types.{NodeItem}

-- `s ?? t`
abbrev pub text_or : Option String → String → String
text_or none t = t
text_or (some s) t = s

module _ {N : Type 0} (num : Builtins N) where
  -- the object of `updateMutation.mutate`
  unfoldable pub details_body : DetailForm → Json
  details_body f = object_of (
      ("customer_name", some (Json.text f.customer_name))
      ∷ ("customer_email", some (Json.text f.customer_email))
      ∷ ("customer_phone", some (Json.text f.customer_phone))
      ∷ ("job_address", some (Json.text f.job_address))
      ∷ ("estimate_markup_pct", float_if_given num f.estimate_markup_pct)
      ∷ ("tax_rate_pct", float_if_given num f.tax_rate_pct)
      ∷ ("remodeler_labor_rate", float_if_given num f.remodeler_labor_rate)
      ∷ ("plumber_labor_rate", float_if_given num f.plumber_labor_rate)
      ∷ ("tinner_labor_rate", float_if_given num f.tinner_labor_rate)
      ∷ ("electrician_labor_rate", float_if_given num f.electrician_labor_rate)
      ∷ ("designer_labor_rate", float_if_given num f.designer_labor_rate)
      ∷ [])

  -- `(item.labor_trade || 'remodeler').toLowerCase()`
  unfoldable pub default_catalog_trade : NodeItem → String
  default_catalog_trade item = num.to_lower_case (or_text (text_or item.labor_trade "") "remodeler")

  unfoldable pub default_catalog_labor_hours : NodeItem → N
  default_catalog_labor_hours item = float_or_zero num (text_or item.labor_hours "0")

  -- the hours of a trade of an item from the catalog
  unfoldable pub catalog_hours : NodeItem → String → N
  unfolding default_catalog_trade default_catalog_labor_hours
  catalog_hours item trade =
      if text_eq (default_catalog_trade item) trade
      then default_catalog_labor_hours item
      else num.zero

  -- the object of `addItemMutation.mutate` for an item from the catalog
  unfoldable pub catalog_item_body : NodeItem → ItemForm → Json
  unfolding catalog_hours
  catalog_item_body item f = object_of (
      ("item_name", some (Json.text item.name))
      ∷ ("quantity", some_number num num.one)
      ∷ ("unit_price", some_number num (float_or_zero num (text_or item.unit_price "0")))
      ∷ ("labor_hours", some_number num (default_catalog_labor_hours item))
      ∷ ("item_markup_pct", some_number num (float_or_zero num f.item_markup_pct))
      ∷ ("labor_trade", some (Json.text (default_catalog_trade item)))
      ∷ ("remodeler_labor_hours", some_number num (catalog_hours item "remodeler"))
      ∷ ("plumber_labor_hours", some_number num (catalog_hours item "plumber"))
      ∷ ("tinner_labor_hours", some_number num (catalog_hours item "tinner"))
      ∷ ("electrician_labor_hours", some_number num (catalog_hours item "electrician"))
      ∷ ("designer_labor_hours", some_number num (catalog_hours item "designer"))
      ∷ ("discount_value", some_number num num.zero)
      ∷ ("group_name", text_if_given f.group_name)
      ∷ [])

  -- the hours of a trade in the form, after an item from the catalog was added
  abbrev filled_hours : NodeItem → String → String → String
  filled_hours item trade before =
      if text_eq (default_catalog_trade item) trade then text_or item.labor_hours before else "0"

  unfoldable pub filled_form : NodeItem → ItemForm → ItemForm
  unfolding default_catalog_trade
  filled_form item f = record f {
    item_name = item.name;
    quantity = "1";
    unit_price = text_or item.unit_price f.unit_price;
    labor_hours = text_or item.labor_hours f.labor_hours;
    remodeler_labor_hours = filled_hours item "remodeler" f.remodeler_labor_hours;
    plumber_labor_hours = filled_hours item "plumber" f.plumber_labor_hours;
    tinner_labor_hours = filled_hours item "tinner" f.tinner_labor_hours;
    electrician_labor_hours = filled_hours item "electrician" f.electrician_labor_hours;
    designer_labor_hours = filled_hours item "designer" f.designer_labor_hours;
  }

  -- `itemForm.quantity && !Number.isInteger(parsedQuantity)`
  unfoldable pub is_refused_quantity : String → Bool
  is_refused_quantity quantity =
      not (is_empty quantity) && not (num.is_integer (num.to_number quantity))

  -- the quantity that is sent
  unfoldable pub sent_quantity : String → N
  sent_quantity quantity =
      let parsed = num.to_number quantity in
      if num.is_finite parsed && num.is_positive parsed then parsed else num.one

  -- the sum of the hours of the five trades, each `parseFloat(s) || 0`
  unfoldable pub summed_hours : ItemForm → N
  summed_hours f =
      num.add
        (num.add
          (num.add
            (num.add (float_or_zero num f.remodeler_labor_hours)
              (float_or_zero num f.plumber_labor_hours))
            (float_or_zero num f.tinner_labor_hours))
          (float_or_zero num f.electrician_labor_hours))
        (float_or_zero num f.designer_labor_hours)

  -- the object of `addItemMutation.mutate` for the manual form
  unfoldable pub manual_item_body : ItemForm → Json
  unfolding sent_quantity summed_hours
  manual_item_body f = object_of (
      ("item_name", some (Json.text f.item_name))
      ∷ ("quantity", some_number num (sent_quantity f.quantity))
      ∷ ("unit_price", some_number num (float_or_zero num f.unit_price))
      ∷ ("labor_hours", some_number num (summed_hours f))
      ∷ ("labor_trade", some (Json.text "remodeler"))
      ∷ ("remodeler_labor_hours", some_number num (float_or_zero num f.remodeler_labor_hours))
      ∷ ("plumber_labor_hours", some_number num (float_or_zero num f.plumber_labor_hours))
      ∷ ("tinner_labor_hours", some_number num (float_or_zero num f.tinner_labor_hours))
      ∷ ("electrician_labor_hours", some_number num (float_or_zero num f.electrician_labor_hours))
      ∷ ("designer_labor_hours", some_number num (float_or_zero num f.designer_labor_hours))
      ∷ ("item_markup_pct", some_number num (float_or_zero num f.item_markup_pct))
      ∷ ("discount_value", some_number num (float_or_zero num f.discount_value))
      ∷ ("group_name", text_if_given f.group_name)
      ∷ [])
