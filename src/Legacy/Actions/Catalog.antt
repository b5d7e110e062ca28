-- ===== src/Legacy/Actions/Catalog.antt =====
-- archive/apps/web/src_legacy/lib/catalogActions.ts
use Prim.Native.String.{◌++◌ as text_append}
use remodelator.Base.{ℕ, String, Bool, Option, none, some, [], ◌∷◌, if◌then◌else◌}
use remodelator.Base.Text.{trim, or_text, is_empty, is_blank, text_eq, decimal}
use remodelator.Legacy.Actions.Common.{decimal_or_zero, group_or_default, estimate_path}
use remodelator.Legacy.Api.{api_request}
use remodelator.Legacy.Api.Read.{ignored, as_catalog_items, as_upserted, as_imported}
use remodelator.Legacy.Defaults.{default_profile_item_markup_pct}
use remodelator.Legacy.Guards.{run_with_session, run_with_estimate}
use remodelator.Legacy.Loaders.{load_catalog_tree, refresh_estimate_views}
use remodelator.Legacy.Monad.{
  World, M, ⊤, done, throw, ◌>>=◌, ◌>>◌, Method, Value, Body, Headers, Json, set_core, set_catalog,
  set_forms,
}
use remodelator.Legacy.Runner.{run}
use remodelator.Legacy.State.{LineItemForm, reset_line_item_form}
use remodelator.Legacy.Types.{CatalogItem, ActivePanel}

module _ (o : World) where
  -- `/catalog/search?query=...&limit=20` for a trimmed query, and its rows shown
  search_catalog : String → M ⊤
  search_catalog query = do
    rows ←
        api_request
          (text_append "/catalog/search?query="
            (text_append (o.platform.encode_uri_component query) "&limit=20"))
          Method.get_method none [] as_catalog_items
    set_catalog (λ c. record c { results = rows })

  catalog_search : String → M ⊤
  unfolding search_catalog
  catalog_search query =
      if is_empty query then set_catalog (λ c. record c { results = [] }) else search_catalog query

  unfoldable pub on_catalog_search : M ⊤
  unfolding catalog_search
  on_catalog_search = run "Catalog search" (catalog_search (trim o.catalog.query))

  item_body : CatalogItem → Body
  unfolding decimal_or_zero group_or_default
  item_body item =
      ("item_name", Value.text item.name)
      ∷ ("quantity", Value.text "1")
      ∷ ("unit_price", Value.text item.unit_price)
      ∷ ("labor_hours", Value.text item.labor_hours)
      ∷ ("item_markup_pct", Value.text (decimal_or_zero o.profile.item_markup_pct))
      ∷ ("discount_value", Value.text "0")
      ∷ ("discount_is_percent", Value.flag Bool.false)
      ∷ ("group_name", Value.text (group_or_default o.forms.line_item.group_name))
      ∷ []

  abbrev filled : CatalogItem → LineItemForm → LineItemForm
  filled item f = record f {
    name = item.name;
    unit_price = item.unit_price;
    qty = "1";
    labor_hours = item.labor_hours;
    item_markup_pct = or_text o.profile.item_markup_pct default_profile_item_markup_pct;
  }

  add_catalog_item : CatalogItem → Headers → String → M ⊤
  unfolding item_body
  add_catalog_item item headers estimate_id = do
    api_request (estimate_path estimate_id "/line-items") Method.post_method (some (item_body item))
        headers ignored
    refresh_estimate_views o (some estimate_id)
    set_forms reset_line_item_form
    set_forms (λ f. record f { line_item = filled item f.line_item })
    set_core (λ c. record c { active_panel = ActivePanel.workspace })

  unfoldable pub on_add_catalog_item : CatalogItem → M ⊤
  unfolding add_catalog_item
  on_add_catalog_item item =
      run_with_estimate o "Catalog add line item" "Catalog add blocked: login required"
        "Catalog add blocked: select an estimate" (add_catalog_item item)

  upsert_body : Body
  upsert_body =
      ("name", Value.text o.catalog.upsert_name)
      ∷ ("unit_price", Value.text o.catalog.upsert_price)
      ∷ ("labor_hours", Value.text o.catalog.upsert_labor)
      ∷ ("description", Value.text o.catalog.upsert_description)
      ∷ []

  -- name, id and action of the reply
  upsert_message : String × String × String → String
  upsert_message (name, item_id, action) =
      let verb = if text_eq action "catalog.item.create" then "Created" else "Updated" in
      text_append verb (
        text_append " catalog item \""
          (text_append name (text_append "\" (id: " (text_append item_id ")."))))

  search_again : M ⊤
  unfolding search_catalog
  search_again = if is_blank o.catalog.query then done else search_catalog (trim o.catalog.query)

  name_line_item : M ⊤
  name_line_item =
      if is_blank o.forms.line_item.name
      then set_forms
          (λ f. record f { line_item = record (f.line_item) { name = o.catalog.upsert_name } })
      else done

  catalog_upsert : Headers → M ⊤
  unfolding upsert_body upsert_message search_again name_line_item
  catalog_upsert headers = do
    payload ←
        api_request "/catalog/upsert" Method.post_method (some upsert_body) headers as_upserted
    set_catalog (λ c. record c { ops_output = upsert_message payload })
    load_catalog_tree
    search_again
    name_line_item

  unfoldable pub on_catalog_upsert : M ⊤
  unfolding catalog_upsert
  on_catalog_upsert =
      run_with_session o "Catalog upsert" "Catalog upsert blocked: login required" catalog_upsert

  import_message : ℕ × ℕ → String
  import_message (inserted, updated) = text_append "Catalog import finished. Inserted: " (
      text_append (decimal inserted)
        (text_append ". Updated: " (text_append (decimal updated) ".")))

  send_import : Json → Headers → M ⊤
  unfolding import_message
  send_import parsed headers = do
    payload ←
        api_request "/catalog/import" Method.post_method (some (("items", Value.json parsed) ∷ []))
          headers as_imported
    set_catalog (λ c. record c { ops_output = import_message payload })
    load_catalog_tree

  unfoldable pub import_parsed : Option Json → Headers → M ⊤
  unfolding send_import
  import_parsed none headers = throw "Catalog import JSON is invalid."
  import_parsed (some (Json.array items)) headers = send_import (Json.array items) headers
  import_parsed (some _) headers = throw "Catalog import JSON must be an array."

  unfoldable pub on_catalog_import : M ⊤
  unfolding import_parsed
  on_catalog_import =
      run_with_session o "Catalog import" "Catalog import blocked: login required"
        (import_parsed (o.platform.parse_json o.catalog.import_json))
