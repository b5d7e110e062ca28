-- ===== src/Legacy/Actions/Llm.antt =====
-- archive/apps/web/src_legacy/lib/llmActions.ts
use Prim.Native.String.{◌++◌ as text_append}
use remodelator.Base.{String, Option, none, some, [], ◌∷◌, not, if◌then◌else◌}
use remodelator.Base.Text.{trim, or_text, is_blank}
use remodelator.Legacy.Actions.Common.{selected_line}
use remodelator.Legacy.Api.{api_request}
use remodelator.Legacy.Api.Read.{ignored, as_llm_suggestion}
use remodelator.Legacy.Guards.{run_with_session, run_with_estimate_line}
use remodelator.Legacy.Loaders.{load_llm_status, refresh_estimate_views}
use remodelator.Legacy.Monad.{World, M, ⊤, ◌>>=◌, ◌>>◌, Method, Value, Headers, set_llm}
use remodelator.Legacy.Runner.{push_log}
use remodelator.Legacy.Types.{LineItem}

module _ (o : World) where
  suggest : LineItem → Headers → M ⊤
  suggest line headers = do
    suggestion ←
        api_request "/pricing/llm/live" Method.post_method
          (some (
            ("item_name", Value.text line.item_name)
            ∷ ("current_unit_price", Value.text line.unit_price)
            ∷ ("context", Value.text o.llm.context)
            ∷ []))
          headers as_llm_suggestion
    set_llm λ l. record l {
      suggested_price = suggestion.suggested_unit_price;
      suggestion = some suggestion;
    }
    load_llm_status

  unfoldable pub suggest_for : Option LineItem → M ⊤
  unfolding suggest
  suggest_for none = push_log "LLM suggest blocked: select a line item first"
  suggest_for (some line) =
      run_with_session o "LLM suggest (OpenRouter required)" "LLM suggest blocked: login required"
        (suggest line)

  unfoldable pub on_suggest_llm : M ⊤
  unfolding suggest_for selected_line
  on_suggest_llm =
      if not o.llm.ready_for_live
      then push_log (
          text_append "LLM suggest blocked: "
            (or_text (trim o.llm.blocker_reason) "OpenRouter is not ready."))
      else suggest_for (selected_line o)

  apply_suggestion : Headers → String → String → M ⊤
  apply_suggestion headers estimate_id line_id = do
    api_request "/pricing/llm/apply" Method.post_method
        (some (
          ("estimate_id", Value.text estimate_id)
          ∷ ("line_item_id", Value.text line_id)
          ∷ ("suggested_price", Value.text (trim o.llm.suggested_price))
          ∷ []))
        headers ignored
    refresh_estimate_views o (some estimate_id)

  unfoldable pub on_apply_llm_suggestion : M ⊤
  unfolding apply_suggestion
  on_apply_llm_suggestion =
      if is_blank o.llm.suggested_price
      then push_log "LLM apply blocked: missing estimate/line/suggested price"
      else run_with_estimate_line o "LLM apply" "LLM apply blocked: login required"
          "LLM apply blocked: missing estimate/line/suggested price"
          "LLM apply blocked: missing estimate/line/suggested price" apply_suggestion
