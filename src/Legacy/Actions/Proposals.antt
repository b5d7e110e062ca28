-- ===== src/Legacy/Actions/Proposals.antt =====
-- archive/apps/web/src_legacy/lib/proposalActions.ts
use Prim.Native.String.{◌++◌ as text_append}
use remodelator.Base.{String, none, some, [], ◌∷◌, if◌then◌else◌, get_or_else}
use remodelator.Base.Text.{trim, or_text, is_blank}
use remodelator.Legacy.Actions.Common.{estimate_path}
use remodelator.Legacy.Api.{api_request}
use remodelator.Legacy.Api.Read.{as_rendered, as_written}
use remodelator.Legacy.Guards.{run_with_estimate}
use remodelator.Legacy.Monad.{
  World, M, ⊤, done, ◌>>=◌, ◌>>◌, Method, Value, Headers, set_core, set_output,
}
use remodelator.Legacy.Types.{ActivePanel}

-- `path.trim() || data/demo_outputs/${stem}_${id}.${extension}`
abbrev output_path : String → String → String → String → String
output_path given stem estimate_id extension = or_text (trim given) (
    text_append "data/demo_outputs/"
      (text_append stem (text_append "_" (text_append estimate_id extension))))

module _ (o : World) where
  render_proposal : Headers → String → M ⊤
  render_proposal headers estimate_id = do
    rendered ←
        api_request (text_append "/proposals/" (text_append estimate_id "/render"))
          Method.get_method none headers as_rendered
    set_output (λ c. record c { proposal_preview = rendered })
    set_core (λ c. record c { active_panel = ActivePanel.output })

  unfoldable pub on_render_proposal : M ⊤
  unfolding render_proposal
  on_render_proposal =
      run_with_estimate o "Render proposal" "Proposal render blocked: login required"
        "Proposal render blocked: select an estimate" render_proposal

  proposal_pdf : Headers → String → M ⊤
  proposal_pdf headers estimate_id = do
    let path = output_path o.output.proposal_pdf_path "proposal" estimate_id ".pdf"
    written ←
        api_request (text_append "/proposals/" (text_append estimate_id "/pdf")) Method.post_method
          (some (("output_path", Value.text path) ∷ [])) headers as_written
    set_output λ c. record c {
      proposal_pdf_result = text_append "Proposal PDF generated at: " (get_or_else written path);
    }
    if is_blank o.output.proposal_pdf_path
        then set_output (λ c. record c { proposal_pdf_path = path })
        else done

  unfoldable pub on_generate_proposal_pdf : M ⊤
  unfolding proposal_pdf
  on_generate_proposal_pdf =
      run_with_estimate o "Generate proposal PDF" "Proposal PDF blocked: login required"
        "Proposal PDF blocked: select an estimate" proposal_pdf

  export_estimate : Headers → String → M ⊤
  export_estimate headers estimate_id = do
    let path = output_path o.output.estimate_export_path "estimate" estimate_id ".json"
    written ←
        api_request (estimate_path estimate_id "/export") Method.post_method
          (some (("output_path", Value.text path) ∷ [])) headers as_written
    set_output λ c. record c {
      estimate_export_result =
          text_append "Estimate export written to: " (get_or_else written path);
    }
    if is_blank o.output.estimate_export_path
        then set_output (λ c. record c { estimate_export_path = path })
        else done

  unfoldable pub on_export_estimate_json : M ⊤
  unfolding export_estimate
  on_export_estimate_json =
      run_with_estimate o "Export estimate JSON" "Estimate export blocked: login required"
        "Estimate export blocked: select an estimate" export_estimate
