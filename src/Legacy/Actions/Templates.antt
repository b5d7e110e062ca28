-- ===== src/Legacy/Actions/Templates.antt =====
-- archive/apps/web/src_legacy/lib/templateActions.ts
use Prim.Native.String.{◌++◌ as text_append}
use remodelator.Base.{String, some, [], ◌∷◌, if◌then◌else◌}
use remodelator.Base.Text.{is_empty}
use remodelator.Legacy.Api.{api_request}
use remodelator.Legacy.Api.Read.{ignored, as_template_saved}
use remodelator.Legacy.Guards.{run_with_estimate}
use remodelator.Legacy.Loaders.{load_templates, refresh_estimate_views}
use remodelator.Legacy.Monad.{World, M, ⊤, ◌>>=◌, ◌>>◌, Method, Value, Headers, set_core}
use remodelator.Legacy.Runner.{push_log}
use remodelator.Legacy.Types.{ActivePanel}

module _ (o : World) where
  save_template : Headers → String → M ⊤
  save_template headers estimate_id = do
    name ←
        api_request "/templates/save" Method.post_method
          (some (
            ("estimate_id", Value.text estimate_id)
            ∷ ("name", Value.text o.catalog.template_name)
            ∷ []))
          headers as_template_saved
    push_log (text_append "Template saved: " name)
    load_templates o

  unfoldable pub on_save_template : M ⊤
  unfolding save_template
  on_save_template =
      run_with_estimate o "Save template" "Template save blocked: login required"
        "Template save blocked: select an estimate" save_template

  apply_template : Headers → String → M ⊤
  apply_template headers estimate_id = do
    api_request "/templates/apply" Method.post_method
        (some (
          ("template_id", Value.text o.catalog.selected_template_id)
          ∷ ("estimate_id", Value.text estimate_id)
          ∷ []))
        headers ignored
    refresh_estimate_views o (some estimate_id)
    set_core (λ c. record c { active_panel = ActivePanel.workspace })

  unfoldable pub on_apply_template : M ⊤
  unfolding apply_template
  on_apply_template =
      if is_empty o.catalog.selected_template_id
      then push_log "Template apply blocked: select estimate and template"
      else run_with_estimate o "Apply template" "Template apply blocked: login required"
          "Template apply blocked: select estimate and template" apply_template
