-- ===== src/Web/Estimate/Assist.antt =====
-- apps/web/src/features/estimates/LlmAssistPanel.tsx: a price is suggested for a line, and applied to it.
pub mod Laws
use remodelator.Base.{
  String, Bool, true, false, ◌||◌, Option, none, some, List, [], ◌∷◌, ◌++◌, any, if◌then◌else◌,
}
use remodelator.Base.Json.{Json}
use remodelator.Base.Text.{text_eq, is_empty}
use remodelator.Web.Api.Calls.{Llm, get_llm_suggestion, apply_llm_suggestion}
use remodelator.Web.Builtins.{Builtins, some_number, text_if_given, object_of}
use remodelator.Web.Estimate.Selection.{line_ids}
use remodelator.Web.Estimate.Types.{LineItem}
use remodelator.Web.Query.{
  Effect, Outcome, succeeded, failed, failed_otherwise, toast_success, toast_error, close,
  error_text,
}

-- the members of a suggestion that the panel reads
pub record LlmSuggestion : Type 0 where
  pub item_name : String
  pub current_unit_price : String
  pub suggested_unit_price : String

-- What the panel knows of `suggestMutation`. The id is that of the line it was asked for, which the code
-- does not keep. A reset mutation does not hear of the command that still runs.
pub data Suggest : Type 0 where
  unasked : Suggest
  asked : String → Suggest
  answered : String → LlmSuggestion → Suggest
  refused : String → String → Suggest

pub record Assist : Type 0 where
  pub line_items : List LineItem
  pub selected_item_id : Option String
  pub context : String
  pub suggest : Suggest
  pub applying : Bool
  pub calls : List Llm
  pub effects : List Effect

unfoldable pub assist_opened : List LineItem → Assist
assist_opened lines = record {
  line_items = lines;
  selected_item_id = none;
  context = "";
  suggest = unasked;
  applying = false;
  calls = [];
  effects = [];
}

-- `setSelectedItemId(...)` and `suggestMutation.reset()`
unfoldable pub reselect : Option String → Assist → Assist
reselect id s = record s { selected_item_id = id; suggest = unasked }

-- `value || null`
abbrev pub unless_empty : String → Option String
unless_empty String.[] = none
unless_empty (String.◌∷◌ c s) = some (String.◌∷◌ c s)

-- `lineItems.find(...)`
abbrev pub find_line : List LineItem → Option String → Option LineItem
find_line lines none = none
find_line [] (some id) = none
find_line (line ∷ lines) (some id) =
    if text_eq line.id id then some line else find_line lines (some id)

-- the effect after a render
abbrev pub keep_listed : Option String → Assist → Assist
keep_listed none s = s
keep_listed (some id) s =
    if is_empty id
    then s
    else if any (text_eq id) (line_ids s.line_items)
    then s
    else reselect none s

abbrev is_asked : Suggest → Bool
is_asked (asked id) = true
is_asked _ = false

pub data AssistEvent : Type 0 where
  lines_changed : List LineItem → AssistEvent
  select_item : String → AssistEvent
  context_input : String → AssistEvent
  get_suggestion apply dismiss : AssistEvent
  -- the reply to the question that the panel still waits for
  suggested : LlmSuggestion → AssistEvent
  suggestion_failed : Option String → AssistEvent
  applied : Outcome → AssistEvent

module _ (estimate_id : String) {N : Type 0} (num : Builtins N) where
  -- the object of `getLlmSuggestion`
  unfoldable pub suggestion_request : LineItem → String → Json
  suggestion_request item context = object_of (
      ("item_name", some (Json.text item.item_name))
      ∷ ("current_unit_price", some_number num (num.parse_float item.unit_price))
      ∷ ("context", text_if_given context)
      ∷ [])

  -- the object of `applyLlmSuggestion`
  unfoldable pub apply_request : String → LlmSuggestion → Json
  apply_request line suggestion = object_of (
      ("estimate_id", some (Json.text estimate_id))
      ∷ ("line_item_id", some (Json.text line))
      ∷ ("suggested_price", some_number num (num.parse_float suggestion.suggested_unit_price))
      ∷ [])

  abbrev ask : Option LineItem → Assist → Assist
  ask none s = s
  ask (some item) s = if is_asked s.suggest then s else record s {
    suggest = asked item.id;
    calls = s.calls ++ get_llm_suggestion (suggestion_request item s.context) ∷ [];
  }

  -- "Apply" is disabled while an application runs and without a selected line.
  abbrev apply_to : Option String → Suggest → Assist → Assist
  apply_to (some line) (answered asked_for suggestion) s =
      if s.applying || is_empty line then s else record s {
        applying = true;
        calls = s.calls ++ apply_llm_suggestion (apply_request line suggestion) ∷ [];
      }
  apply_to _ _ s = s

  abbrev answer : Suggest → LlmSuggestion → Assist → Assist
  answer (asked id) suggestion s = record s { suggest = answered id suggestion }
  answer _ suggestion s = s

  abbrev refuse : Suggest → Option String → Assist → Assist
  refuse (asked id) error s = record s {
    suggest = refused id (error_text error "Suggestion failed");
  }
  refuse _ error s = s

  abbrev after_apply : Outcome → Assist → Assist
  after_apply (succeeded reply) s = reselect none (record s {
    applying = false;
    effects = s.effects ++ toast_success "Price suggestion applied" ∷ close ∷ [];
  })
  after_apply (failed message) s = record s {
    applying = false;
    effects = s.effects ++ toast_error message ∷ [];
  }
  after_apply failed_otherwise s = record s {
    applying = false;
    effects = s.effects ++ toast_error "Apply failed" ∷ [];
  }

  unfoldable pub assist_handle : AssistEvent → Assist → Assist
  unfolding reselect suggestion_request apply_request
  assist_handle (lines_changed lines) s =
      keep_listed s.selected_item_id (record s { line_items = lines })
  assist_handle (select_item value) s = reselect (unless_empty value) s
  assist_handle (context_input value) s = record s { context = value }
  assist_handle get_suggestion s = ask (find_line s.line_items s.selected_item_id) s
  assist_handle apply s = apply_to s.selected_item_id s.suggest s
  assist_handle dismiss s = record s { suggest = unasked }
  assist_handle (suggested suggestion) s = answer s.suggest suggestion s
  assist_handle (suggestion_failed error) s = refuse s.suggest error s
  assist_handle (applied outcome) s = if s.applying then after_apply outcome s else s

  unfoldable pub assist_run : List AssistEvent → Assist → Assist
  unfolding assist_handle
  assist_run [] s = s
  assist_run (e ∷ es) s = assist_run es (assist_handle e s)
