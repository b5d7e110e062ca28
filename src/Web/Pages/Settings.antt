-- ===== src/Web/Pages/Settings.antt =====
-- apps/web/src/features/settings: the values of the profile form, and the restoration of a backup
-- (BackupSection.tsx).
use remodelator.Base.{
  String, Bool, true, false, Option, none, some, List, [], ◌∷◌, ◌++◌, if◌then◌else◌,
}
use remodelator.Web.Api.Calls.{Activity, restore_backup}
use remodelator.Web.Api.Send.{joined}
use remodelator.Web.App.{Parsed, Runtime}
use remodelator.Web.Builtins.{Builtins, float_or_zero}
use remodelator.Web.Client.{member}
use remodelator.Web.Estimate.Types.{UserProfile}
use remodelator.Web.Query.{
  Effect, Outcome, succeeded, failed, failed_otherwise, toast_success, toast_error,
}

pub record ProfileForm (N : Type 0) : Type 0 where
  pub full_name : String
  pub labor_rate : N
  pub remodeler_labor_rate : N
  pub plumber_labor_rate : N
  pub tinner_labor_rate : N
  pub electrician_labor_rate : N
  pub designer_labor_rate : N
  pub item_markup_pct : N
  pub estimate_markup_pct : N
  pub tax_rate_pct : N

unfoldable pub profile_form : {N : Type 0} → Builtins N → UserProfile → ProfileForm N
profile_form num p = record {
  full_name = p.full_name;
  labor_rate = float_or_zero num p.labor_rate;
  remodeler_labor_rate = float_or_zero num p.remodeler_labor_rate;
  plumber_labor_rate = float_or_zero num p.plumber_labor_rate;
  tinner_labor_rate = float_or_zero num p.tinner_labor_rate;
  electrician_labor_rate = float_or_zero num p.electrician_labor_rate;
  designer_labor_rate = float_or_zero num p.designer_labor_rate;
  item_markup_pct = float_or_zero num p.default_item_markup_pct;
  estimate_markup_pct = float_or_zero num p.default_estimate_markup_pct;
  tax_rate_pct = float_or_zero num p.tax_rate_pct;
}

-- The file that is chosen is its text. `all_stale` tells that `invalidateQueries()` has marked every query.
pub record Backup : Type 0 where
  pub restore_file : Option String
  pub show_restore : Bool
  pub restoring : Bool
  pub all_stale : Bool
  pub calls : List Activity
  pub effects : List Effect

abbrev send_parsed : Parsed → Backup → Backup
send_parsed (Parsed.document body) s = record s {
  restoring = true;
  calls = s.calls ++ restore_backup body ∷ [];
}
send_parsed (Parsed.syntax_error message) s = record s {
  effects = s.effects ++ toast_error message ∷ [];
}

abbrev restore_given : Runtime → Option String → Backup → Backup
restore_given js none s = s
restore_given js (some file) s = if s.restoring then s else send_parsed (js.parse_json file) s

-- "Confirm Restore", which is disabled without a file and while a restoration runs
unfoldable pub confirm_restore : Runtime → Backup → Backup
confirm_restore js s = restore_given js s.restore_file s

unfoldable pub restored : {N : Type 0} → Builtins N → Outcome → Backup → Backup
restored num (succeeded result) s = record s {
  restoring = false;
  all_stale = true;
  show_restore = false;
  restore_file = none;
  effects =
      s.effects
      ++ toast_success (
          joined (
            "Restored "
            ∷ num.in_text (member result "estimates_restored")
            ∷ " estimates, "
            ∷ num.in_text (member result "line_items_restored")
            ∷ " line items"
            ∷ []))
        ∷ [];
}
restored num (failed message) s = record s {
  restoring = false;
  effects = s.effects ++ toast_error message ∷ [];
}
restored num failed_otherwise s = record s {
  restoring = false;
  effects = s.effects ++ toast_error "Restore failed" ∷ [];
}
