-- ===== src/Legacy/Actions/Workspace.antt =====
-- archive/apps/web/src_legacy/lib/workspaceActions.ts
use remodelator.Base.{String, Option, none, some, [], ◌∷◌}
use remodelator.Legacy.Actions.Common.{decimal_or_zero, group_or_default, estimate_path, line_path}
use remodelator.Legacy.Api.{api_request}
use remodelator.Legacy.Api.Read.{ignored, as_estimate}
use remodelator.Legacy.Guards.{run_with_session, run_with_estimate, run_with_estimate_line}
use remodelator.Legacy.Loaders.{refresh_estimate_views}
use remodelator.Legacy.Monad.{World, M, ⊤, ◌>>=◌, ◌>>◌, Method, Value, Body, Headers}

module _ (o : World) where
  create_body : Body
  create_body =
      ("title", Value.text o.forms.estimate.title)
      ∷ ("customer_name", Value.text o.forms.estimate.customer_name)
      ∷ ("customer_email", Value.text o.forms.estimate.customer_email)
      ∷ ("customer_phone", Value.text o.forms.estimate.customer_phone)
      ∷ ("job_address", Value.text o.forms.estimate.job_address)
      ∷ []

  create_estimate : Headers → M ⊤
  unfolding create_body
  create_estimate headers = do
    est ← api_request "/estimates" Method.post_method (some create_body) headers as_estimate
    refresh_estimate_views o (some est.id)

  unfoldable pub on_create_estimate : M ⊤
  unfolding create_estimate
  on_create_estimate =
      run_with_session o "Create estimate" "Create estimate blocked: login required" create_estimate

  -- a mutation of the estimate, and the reload after it
  unfoldable pub then_refresh : String → Method → Option Body → Headers → String → M ⊤
  then_refresh path verb body headers estimate_id = do
    api_request path verb body headers ignored
    refresh_estimate_views o (some estimate_id)

  line_item_body : Body
  unfolding decimal_or_zero group_or_default
  line_item_body =
      ("item_name", Value.text o.forms.line_item.name)
      ∷ ("quantity", Value.text (decimal_or_zero o.forms.line_item.qty))
      ∷ ("unit_price", Value.text (decimal_or_zero o.forms.line_item.unit_price))
      ∷ ("labor_hours", Value.text (decimal_or_zero o.forms.line_item.labor_hours))
      ∷ ("item_markup_pct", Value.text (decimal_or_zero o.forms.line_item.item_markup_pct))
      ∷ ("discount_value", Value.text (decimal_or_zero o.forms.line_item.discount_value))
      ∷ ("discount_is_percent", Value.flag o.forms.line_item.discount_is_percent)
      ∷ ("group_name", Value.text (group_or_default o.forms.line_item.group_name))
      ∷ []

  add_line_item : Headers → String → M ⊤
  unfolding line_item_body then_refresh
  add_line_item headers estimate_id =
      then_refresh (estimate_path estimate_id "/line-items") Method.post_method
        (some line_item_body) headers estimate_id

  unfoldable pub on_add_line_item : M ⊤
  unfolding add_line_item
  on_add_line_item =
      run_with_estimate o "Add line item" "Add line item blocked: login required"
        "Add line item blocked: select an estimate" add_line_item

  details_body : Body
  unfolding decimal_or_zero
  details_body =
      ("title", Value.text o.forms.estimate.title)
      ∷ ("customer_name", Value.text o.forms.estimate.customer_name)
      ∷ ("customer_email", Value.text o.forms.estimate.customer_email)
      ∷ ("customer_phone", Value.text o.forms.estimate.customer_phone)
      ∷ ("job_address", Value.text o.forms.estimate.job_address)
      ∷ ("estimate_markup_pct", Value.text (decimal_or_zero o.forms.estimate.estimate_markup_pct))
      ∷ ("tax_rate_pct", Value.text (decimal_or_zero o.forms.estimate.tax_rate_pct))
      ∷ []

  update_details : Headers → String → M ⊤
  unfolding details_body then_refresh
  update_details headers estimate_id =
      then_refresh (estimate_path estimate_id "") Method.put_method (some details_body) headers
        estimate_id

  unfoldable pub on_update_estimate_details : M ⊤
  unfolding update_details
  on_update_estimate_details =
      run_with_estimate o "Update estimate details"
        "Estimate details update blocked: login required"
        "Estimate details update blocked: select an estimate" update_details

  edit_body : Body
  unfolding decimal_or_zero group_or_default
  edit_body =
      ("quantity", Value.text (decimal_or_zero o.forms.edit.quantity))
      ∷ ("unit_price", Value.text (decimal_or_zero o.forms.edit.unit_price))
      ∷ ("labor_hours", Value.text (decimal_or_zero o.forms.edit.labor_hours))
      ∷ ("item_markup_pct", Value.text (decimal_or_zero o.forms.edit.item_markup_pct))
      ∷ ("discount_value", Value.text (decimal_or_zero o.forms.edit.discount_value))
      ∷ ("discount_is_percent", Value.flag o.forms.edit.discount_is_percent)
      ∷ ("group_name", Value.text (group_or_default o.forms.edit.group_name))
      ∷ []

  update_line : Headers → String → String → M ⊤
  unfolding edit_body then_refresh
  update_line headers estimate_id line_id =
      then_refresh (line_path estimate_id line_id "") Method.put_method (some edit_body) headers
        estimate_id

  unfoldable pub on_update_selected_line : M ⊤
  unfolding update_line
  on_update_selected_line =
      run_with_estimate_line o "Update selected line" "Line update blocked: login required"
        "Line update blocked: select estimate" "Line update blocked: select line item" update_line

  remove_line : Headers → String → String → M ⊤
  unfolding then_refresh
  remove_line headers estimate_id line_id =
      then_refresh (line_path estimate_id line_id "") Method.delete_method none headers estimate_id

  unfoldable pub on_remove_selected_line : M ⊤
  unfolding remove_line
  on_remove_selected_line =
      run_with_estimate_line o "Remove selected line" "Line remove blocked: login required"
        "Line remove blocked: select estimate" "Line remove blocked: select line item" remove_line
