-- ===== src/Web/Pages/Catalog.antt =====
-- apps/web/src/features/catalog/CatalogPage.tsx: the form of an item, and the items that are shown.
use remodelator.Base.{
  String, Bool, true, false, not, ◌&&◌, ◌||◌, Option, none, some, List, [], ◌∷◌, ◌++◌,
  if◌then◌else◌,
}
use remodelator.Base.Json.{Json}
use remodelator.Base.Text.{text_eq, is_empty, or_text}
use remodelator.Web.Api.Calls.{Catalog, upsert_catalog_item}
use remodelator.Web.App.{App, is_admin}
use remodelator.Web.Builtins.{Builtins, float_or_zero, some_number, text_if_given, object_of}
use remodelator.Web.Estimate.Page.Bodies.{text_or}
use remodelator.Web.Estimate.Types.{CatalogTreeNode, NodeItem}
use remodelator.Web.Query.{
  Effect, Outcome, succeeded, failed, failed_otherwise, invalidate, catalog_tree_key,
  catalog_search_key, toast_success, toast_error,
}

pub record CatalogItem : Type 0 where
  pub id : String
  pub name : String
  pub unit_price : String
  pub labor_hours : String
  pub labor_trade : Option String

pub record UpsertForm : Type 0 where
  pub name : String
  pub unit_price : String
  pub labor_hours : String
  pub labor_trade : String
  pub category : String

pub record CatalogPage : Type 0 where
  pub show_upsert : Bool
  pub editing_item : Option CatalogItem
  pub upsert_form : UpsertForm
  pub saving : Bool
  pub calls : List Catalog
  pub effects : List Effect

unfoldable pub reset_upsert : CatalogPage → CatalogPage
reset_upsert s = record s {
  show_upsert = false;
  editing_item = none;
  upsert_form = record {
    name = "";
    unit_price = "";
    labor_hours = "";
    labor_trade = "remodeler";
    category = "";
  };
}

unfoldable pub open_edit : CatalogItem → CatalogPage → CatalogPage
open_edit item s = record s {
  show_upsert = true;
  editing_item = some item;
  upsert_form = record {
    name = item.name;
    unit_price = item.unit_price;
    labor_hours = item.labor_hours;
    labor_trade = or_text (text_or item.labor_trade "") "remodeler";
    category = "";
  };
}

module _ {N : Type 0} (num : Builtins N) where
  -- the object of `upsertMutation.mutate`
  unfoldable pub upsert_body : UpsertForm → Json
  upsert_body f = object_of (
      ("name", some (Json.text f.name))
      ∷ ("unit_price", some_number num (float_or_zero num f.unit_price))
      ∷ ("labor_hours", some_number num (float_or_zero num f.labor_hours))
      ∷ ("labor_trade", some (Json.text f.labor_trade))
      ∷ ("category", text_if_given f.category)
      ∷ [])

  -- the dialog is shown to an administrator alone
  unfoldable pub submit_upsert : App → CatalogPage → CatalogPage
  unfolding upsert_body
  submit_upsert app s = if not (is_admin app && s.show_upsert) || s.saving then s else record s {
    saving = true;
    calls = s.calls ++ upsert_catalog_item (upsert_body s.upsert_form) ∷ [];
  }

abbrev saved_text : Option CatalogItem → String
saved_text none = "Item added"
saved_text (some item) = "Item updated"

unfoldable pub upserted : Outcome → CatalogPage → CatalogPage
unfolding reset_upsert
upserted (succeeded reply) s = reset_upsert (record s {
  saving = false;
  effects =
      s.effects
      ++ invalidate catalog_tree_key
        ∷ invalidate catalog_search_key
        ∷ toast_success (saved_text s.editing_item)
        ∷ [];
})
upserted (failed message) s = record s {
  saving = false;
  effects = s.effects ++ toast_error message ∷ [];
}
upserted failed_otherwise s = record s {
  saving = false;
  effects = s.effects ++ toast_error "Failed" ∷ [];
}

-- `tree.find((n) => n.name === name)?.items || []`
abbrev items_of : String → List CatalogTreeNode → List NodeItem
items_of name [] = []
items_of name (node ∷ tree) = if text_eq node.name name then node.items else items_of name tree

unfoldable pub category_items : Option String → List CatalogTreeNode → List NodeItem
category_items none tree = []
category_items (some name) tree = if is_empty name then [] else items_of name tree
