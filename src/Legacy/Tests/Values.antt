-- ===== src/Legacy/Tests/Values.antt =====
-- Theorems on what the commands of archive/apps/web/src_legacy store and send, at concrete values.
use remodelator.Base.{List, ◌∷◌, none, true, ℕ, ◌≤◌, ◌<◌, ◌≡◌, refl, ◌⊎◌, some, []}
use remodelator.Base.Set.{has}
use remodelator.Base.Text.{trim}
use remodelator.Legacy.Status.{build_quickstart_catalog_nodes}
use remodelator.Legacy.Status.Laws.{build_quickstart_catalog_nodes_complete}
use remodelator.Legacy.Types.{CatalogTreeNode}
use remodelator.Legacy.Actions.Admin.{parse_limit, parse_retention_days}
use remodelator.Legacy.Actions.Admin.Laws.{parse_limit_pos}
use remodelator.Legacy.Actions.Card.{size, clean_last4}
use remodelator.Legacy.Actions.Card.Laws.{AllDigits, clean_last4-AllDigits}
use remodelator.Legacy.Actions.Reorder.{quickstart_max_items, line_index, reorder_target}
use remodelator.Legacy.Actions.Reorder.Laws.{
  quickstart_max_items_bounds, reorder_target-IsNeighbour, IsNeighbour,
}
use remodelator.Legacy.Loaders.{keep_selected_template}
use remodelator.Legacy.Session.{load_stored_session, persist_session, session_key}
use remodelator.Legacy.Session.Laws.{load_stored_session-persist_session}
use remodelator.Legacy.Sync.{keep_selected_line}
use remodelator.Legacy.Sync.Laws.{
  HasLine, HasTemplate, keep_selected_line-HasLine, keep_selected_template-HasTemplate,
}
use remodelator.Legacy.Types.{ReorderDirection}
use remodelator.Legacy.Tests.{ann, browser, signed_out, lines, templates}

load_stored_session-persist_session_example :
    load_stored_session browser (persist_session (some ann) signed_out).1.storage session_key
    ≡ some ann
load_stored_session-persist_session_example =
    load_stored_session-persist_session signed_out ann [] refl refl refl refl refl

keep_selected_line-HasLine_example :
    HasLine (keep_selected_line lines "z") lines
    ⊎ ((lines ≡ []) × (keep_selected_line lines "z" ≡ ""))
keep_selected_line-HasLine_example = keep_selected_line-HasLine lines "z"

keep_selected_template-HasTemplate_example :
    HasTemplate (keep_selected_template templates "") templates
    ⊎ ((templates ≡ []) × (keep_selected_template templates "" ≡ ""))
keep_selected_template-HasTemplate_example = keep_selected_template-HasTemplate templates ""

reorder_target-IsNeighbour_example :
    (1 < 3) × ((i : ℕ) × (line_index "c" lines ≡ some i) × IsNeighbour ReorderDirection.up i 1)
unfolding reorder_target
reorder_target-IsNeighbour_example = reorder_target-IsNeighbour ReorderDirection.up "c" lines 1 refl

quickstart_max_items_bounds_example :
    (1 ≤ quickstart_max_items "900") × (quickstart_max_items "900" ≤ 50)
quickstart_max_items_bounds_example = quickstart_max_items_bounds "900"

parse_limit_pos_example : (1 ≤ parse_limit "-3") × (1 ≤ parse_retention_days "-3")
parse_limit_pos_example = parse_limit_pos "-3"

clean_last4-AllDigits_example : AllDigits (clean_last4 "x12") × (size (clean_last4 "x12") ≡ 4)
clean_last4-AllDigits_example = clean_last4-AllDigits "x12"

-- one room with two items, and one without
abbrev kitchen : CatalogTreeNode
kitchen = record {
  node_id = none;
  name = "Kitchen";
  items = record { id = "i"; name = "Sink" } ∷ record { id = "j"; name = "Tap" } ∷ [];
}

abbrev rooms : List CatalogTreeNode
rooms = record { node_id = none; name = "Attic"; items = [] } ∷ kitchen ∷ []

build_quickstart_catalog_nodes_complete_example :
    has (build_quickstart_catalog_nodes browser rooms "") "Kitchen" ≡ true
unfolding trim
build_quickstart_catalog_nodes_complete_example =
    build_quickstart_catalog_nodes_complete browser rooms "" 1 kitchen
      (record { id = "i"; name = "Sink" }) (record { id = "j"; name = "Tap" } ∷ []) refl refl refl
