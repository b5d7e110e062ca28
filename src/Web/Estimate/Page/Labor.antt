-- ===== src/Web/Estimate/Page/Labor.antt =====
-- EstimateDetailPage.tsx: rates, hours and subtotals as the page shows them.
use Prim.Native.String.{◌++◌ as text_append}
use remodelator.Base.{
  String, not, ◌||◌, Option, none, some, List, [], ◌∷◌, filter, map, if◌then◌else◌,
}
use remodelator.Web.Api.Send.{joined}
use remodelator.Web.Builtins.{Builtins, or_number}
use remodelator.Web.Estimate.Page.State.{DetailForm}
use remodelator.Web.Estimate.Types.{Estimate, LineItem, UserProfile}
use remodelator.Web.Format.{text, number, format_decimal}

pub record LaborTotals (N : Type 0) : Type 0 where
  pub remodeler : N
  pub plumber : N
  pub tinner : N
  pub electrician : N
  pub designer : N
  pub total : N

-- the text of an optional member of the profile; a missing one parses as NaN, and so does ""
abbrev rate_of : Option UserProfile → (UserProfile → String) → String
rate_of none field = ""
rate_of (some profile) field = field profile

module _ {N : Type 0} (num : Builtins N) where
  unfoldable pub to_number : String → N
  to_number value =
      let parsed = num.parse_float value in if num.is_finite parsed then parsed else num.zero

  unfoldable pub parse_positive : String → N
  parse_positive value =
      let parsed = num.parse_float value in
      if not (num.is_finite parsed) || not (num.is_positive parsed) then num.zero else parsed

  unfoldable pub default_labor_rate_value : Estimate → Option UserProfile → N
  unfolding parse_positive
  default_labor_rate_value estimate profile =
      or_number num (parse_positive estimate.remodeler_labor_rate) (
        or_number num (parse_positive (rate_of profile (λ p. p.remodeler_labor_rate)))
          (or_number num (parse_positive (rate_of profile (λ p. p.labor_rate))) num.zero))

  unfoldable pub effective_trade_rate : Estimate → Option UserProfile → String → String
  unfolding default_labor_rate_value format_decimal
  effective_trade_rate estimate profile value =
      let trade_specific = parse_positive value in
      if num.is_positive trade_specific
      then format_decimal num (number trade_specific)
      else format_decimal num (number (default_labor_rate_value estimate profile))

  -- the form of the details, filled from the estimate
  unfoldable pub prefilled : Estimate → Option UserProfile → DetailForm
  unfolding effective_trade_rate
  prefilled e profile = record {
    customer_name = e.customer_name;
    customer_email = e.customer_email;
    customer_phone = e.customer_phone;
    job_address = e.job_address;
    estimate_markup_pct = format_decimal num (text e.estimate_markup_pct);
    tax_rate_pct = format_decimal num (text e.tax_rate_pct);
    remodeler_labor_rate = effective_trade_rate e profile e.remodeler_labor_rate;
    plumber_labor_rate = effective_trade_rate e profile e.plumber_labor_rate;
    tinner_labor_rate = effective_trade_rate e profile e.tinner_labor_rate;
    electrician_labor_rate = effective_trade_rate e profile e.electrician_labor_rate;
    designer_labor_rate = effective_trade_rate e profile e.designer_labor_rate;
  }

  -- the hours of all trades of a line
  unfoldable pub line_hours : LineItem → N
  unfolding to_number
  line_hours line =
      num.add
        (num.add
          (num.add
            (num.add (to_number line.remodeler_labor_hours) (to_number line.plumber_labor_hours))
            (to_number line.tinner_labor_hours))
          (to_number line.electrician_labor_hours))
        (to_number line.designer_labor_hours)

  -- one round of `reduce`
  unfoldable pub add_labor : LaborTotals N → LineItem → LaborTotals N
  unfolding line_hours
  add_labor acc line = record {
    remodeler = num.add acc.remodeler (to_number line.remodeler_labor_hours);
    plumber = num.add acc.plumber (to_number line.plumber_labor_hours);
    tinner = num.add acc.tinner (to_number line.tinner_labor_hours);
    electrician = num.add acc.electrician (to_number line.electrician_labor_hours);
    designer = num.add acc.designer (to_number line.designer_labor_hours);
    total = num.add acc.total (line_hours line);
  }

  unfoldable pub add_lines : LaborTotals N → List LineItem → LaborTotals N
  unfolding add_labor
  add_lines acc [] = acc
  add_lines acc (line ∷ lines) = add_lines (add_labor acc line) lines

  unfoldable pub labor_totals_for_lines : List LineItem → LaborTotals N
  unfolding add_lines
  labor_totals_for_lines lines =
      add_lines
        (record {
          remodeler = num.zero;
          plumber = num.zero;
          tinner = num.zero;
          electrician = num.zero;
          designer = num.zero;
          total = num.zero;
        })
        lines

  unfoldable pub trade_totals_label : LaborTotals N → String
  unfolding format_decimal
  trade_totals_label totals = joined (
      "R:"
      ∷ format_decimal num (number totals.remodeler)
      ∷ " P:"
      ∷ format_decimal num (number totals.plumber)
      ∷ " T:"
      ∷ format_decimal num (number totals.tinner)
      ∷ " E:"
      ∷ format_decimal num (number totals.electrician)
      ∷ " D:"
      ∷ format_decimal num (number totals.designer)
      ∷ [])

  abbrev part_text : String × N → String
  part_text (label, value) = joined (label ∷ ":" ∷ format_decimal num (number value) ∷ [])

  -- `parts.join(' ')`
  abbrev pub spaced : List String → String
  spaced [] = ""
  spaced (s ∷ []) = s
  spaced (s ∷ t ∷ rest) = text_append s (text_append " " (spaced (t ∷ rest)))

  -- the trades that have hours in a line
  unfoldable pub labor_parts : LineItem → List (String × N)
  unfolding to_number
  labor_parts line =
      filter (λ (part : String × N). num.is_positive part.1)
        (("R", to_number line.remodeler_labor_hours)
          ∷ ("P", to_number line.plumber_labor_hours)
          ∷ ("T", to_number line.tinner_labor_hours)
          ∷ ("E", to_number line.electrician_labor_hours)
          ∷ ("D", to_number line.designer_labor_hours)
          ∷ [])

  abbrev parts_label : List (String × N) → String
  parts_label [] = "Labor 0.00h"
  parts_label (part ∷ parts) = spaced (map part_text (part ∷ parts))

  unfoldable pub labor_breakdown_label : LineItem → String
  unfolding labor_parts
  labor_breakdown_label line = parts_label (labor_parts line)

  -- the sum under the name of a group
  unfoldable pub group_subtotal : N → List LineItem → N
  group_subtotal sum [] = sum
  group_subtotal sum (line ∷ lines) =
      let total = num.parse_float line.total_price in
      group_subtotal (num.add sum (if num.is_nan total then num.zero else total)) lines
