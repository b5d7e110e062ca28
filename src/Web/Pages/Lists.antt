-- ===== src/Web/Pages/Lists.antt =====
-- apps/web/src/features/estimates/EstimateListPage.tsx and features/templates/TemplateListPage.tsx.
use remodelator.Base.{
  String, Bool, true, false, not, ◌&&◌, ◌||◌, Option, none, some, List, [], ◌∷◌, ◌++◌, filter,
  if◌then◌else◌,
}
use remodelator.Base.Json.{Json}
use remodelator.Base.Text.{text_eq, is_empty, is_blank}
use remodelator.Web.Api.Calls.{Estimates, Templates, create_estimate, apply_template}
use remodelator.Web.Auth.{texts}
use remodelator.Web.Builtins.{text_if_given, object_of}
use remodelator.Web.Estimate.Types.{Estimate}
use remodelator.Web.Query.{
  Effect, Outcome, succeeded, failed, failed_otherwise, invalidate, estimates_key, toast_success,
  toast_error,
}

pub record EstimateList : Type 0 where
  pub search_text : String
  pub status_filter : String
  pub show_create_form : Bool
  pub new_title : String
  pub new_customer : String
  pub creating : Bool
  pub calls : List Estimates
  pub effects : List Effect

-- `a.toLowerCase().includes(b.toLowerCase())`
abbrev pub Includes : Type 0
Includes = String → String → Bool

unfoldable pub matches_filter : Includes → EstimateList → Estimate → Bool
matches_filter includes s e =
    (is_empty s.search_text
      || includes e.title s.search_text
      || includes e.customer_name s.search_text)
    && (text_eq s.status_filter "all" || text_eq e.status s.status_filter)

unfoldable pub filtered : Includes → EstimateList → List Estimate → List Estimate
unfolding matches_filter
filtered includes s estimates = filter (matches_filter includes s) estimates

-- `onSubmit` of the form, whose button is disabled while an estimate is created
unfoldable pub submit_create : EstimateList → EstimateList
submit_create s =
    if is_blank s.new_title || s.creating || not s.show_create_form then s else record s {
      creating = true;
      calls =
          s.calls
          ++ create_estimate (
              object_of (
                ("title", some (Json.text s.new_title))
                ∷ ("customer_name", text_if_given s.new_customer)
                ∷ []))
            ∷ [];
    }

unfoldable pub created : Outcome → EstimateList → EstimateList
created (succeeded reply) s = record s {
  creating = false;
  show_create_form = false;
  new_title = "";
  new_customer = "";
  effects = s.effects ++ invalidate estimates_key ∷ toast_success "Estimate created" ∷ [];
}
created (failed message) s = record s {
  creating = false;
  effects = s.effects ++ toast_error message ∷ [];
}
created failed_otherwise s = record s {
  creating = false;
  effects = s.effects ++ toast_error "Failed to create estimate" ∷ [];
}

pub record TemplateList : Type 0 where
  pub show_apply : Option String
  pub apply_estimate_id : String
  pub applying : Bool
  pub calls : List Templates
  pub effects : List Effect

-- the dialog of a template
abbrev apply_shown : Option String → TemplateList → TemplateList
apply_shown none s = s
apply_shown (some template) s =
    if is_empty template || is_empty s.apply_estimate_id || s.applying then s else record s {
      applying = true;
      calls =
          s.calls
          ++ apply_template (
              Json.object
                (texts (("template_id", template) ∷ ("estimate_id", s.apply_estimate_id) ∷ [])))
            ∷ [];
    }

unfoldable pub press_apply : TemplateList → TemplateList
press_apply s = apply_shown s.show_apply s

unfoldable pub template_applied : Outcome → TemplateList → TemplateList
template_applied (succeeded reply) s = record s {
  show_apply = none;
  apply_estimate_id = "";
  applying = false;
  effects =
      s.effects ++ invalidate estimates_key ∷ toast_success "Template applied to estimate" ∷ [];
}
template_applied (failed message) s = record s {
  applying = false;
  effects = s.effects ++ toast_error message ∷ [];
}
template_applied failed_otherwise s = record s {
  applying = false;
  effects = s.effects ++ toast_error "Apply failed" ∷ [];
}
