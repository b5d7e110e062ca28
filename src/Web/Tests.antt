-- ===== src/Web/Tests.antt =====
-- Theorems on apps/web/src at concrete states.
mod Calls
mod Page
mod Visits
use remodelator.Base.{
  ◌≡◌, refl, String, true, false, not, ◌&&◌, Option, none, some, List, [], ◌∷◌, any, length, ltb,
  map, if◌then◌else◌,
}
use remodelator.Base.Json.{Json, Fields}
use remodelator.Base.Text.{text_eq, trim}
use remodelator.Web.App.{App, AuthResponse, Parsed, Runtime, Reply}
use remodelator.Web.Auth.{Shown, signed_in, logout, auth_guard, admin_guard}
use remodelator.Web.Auth.Laws.{logout-Anonymous, signed_in-HasToken}
use remodelator.Web.Client.{get, put, post, del, request_headers, settle}
use remodelator.Web.Estimate.Groups.{
  grouped_line_items, existing_groups, group_name_of, move_up_index, move_down_index,
}
use remodelator.Web.Estimate.Groups.Laws.{
  members_of, lines_named, Names, grouped_line_items-partition, move_index-neighbour,
}
use remodelator.Base.Set.{Ids, has, set_from}
use remodelator.Web.Estimate.Selection.{
  line_ids, all_selected, prune_selection, toggle_line_selection, toggle_all_selection,
  toggle_group_selection, toggle_catalog_node,
}
use remodelator.Web.Estimate.Selection.Laws.{
  has-toggle_line_selection, has-toggle_group_selection, has-prune_selection,
  has-toggle_catalog_node, toggle_all_selection-all_selected,
}
use remodelator.Web.Estimate.Types.{LineItem}

-- an administrator with a key, about to make a request
abbrev boss : App
boss = record {
  auth = record {
    token = some "t1";
    user_id = some "u1";
    email = some "b@x.com";
    role = some "admin";
  };
  admin_api_key = " k1 ";
  location = "/admin";
  sent = [];
  replies = [];
}

abbrev ann : AuthResponse
ann = record { user_id = "u2"; email = "ann@x.com"; role = "user"; session_token = "t2" }

-- a runtime whose parser knows one document
abbrev reads : Parsed → Runtime
reads parsed = record {
  api_base = "";
  parse_json = λ s. parsed;
  to_text = λ v. "[object Object]";
  is_zero = λ s. text_eq s "0";
}

logout-Anonymous_example :
    (request_headers (logout boss) "/admin/demo-reset" "POST"
      ≡ ("Content-Type", "application/json") ∷ [])
    × (auth_guard (logout boss) ≡ Shown.redirect "/login")
    × (admin_guard (logout boss) ≡ Shown.redirect "/")
logout-Anonymous_example = logout-Anonymous boss "/admin/demo-reset" "POST"

signed_in-HasToken_example :
    (request_headers (signed_in ann boss) "/admin/demo-reset" "POST"
      ≡ ("Content-Type", "application/json") ∷ ("x-session-token", "t2") ∷ [])
    × (auth_guard (signed_in ann boss) ≡ Shown.children)
    × (admin_guard (signed_in ann boss)
        ≡ (if text_eq "user" "admin" then Shown.children else Shown.redirect "/"))
signed_in-HasToken_example = signed_in-HasToken boss ann "/admin/demo-reset" "POST" refl

abbrev plain : Runtime
plain = reads (Parsed.document Json.null)

abbrev line : String → Option String → LineItem
line id group_name = record {
  id = id;
  estimate_id = "e1";
  sort_order = 0;
  group_name = group_name;
  item_name = "Tile";
  quantity = "1";
  unit_price = "10";
  item_markup_pct = "0";
  discount_value = "0";
  discount_is_percent = false;
  labor_hours = "0";
  remodeler_labor_hours = "0";
  plumber_labor_hours = "0";
  tinner_labor_hours = "0";
  electrician_labor_hours = "0";
  designer_labor_hours = "0";
  labor_trade = "remodeler";
  labor_rate = "0";
  total_price = "10";
}

-- two groups that alternate; one name is padded and one is missing
abbrev lines : List LineItem
lines =
    line "a" (some "Bath")
    ∷ line "b" none
    ∷ line "c" (some " Bath ")
    ∷ line "d" (some "General")
    ∷ []

grouped_line_items-partition_example :
    (members_of "Bath" (grouped_line_items lines) ≡ lines_named "Bath" lines)
    × (existing_groups lines ≡ set_from [] (map group_name_of lines))
grouped_line_items-partition_example = grouped_line_items-partition lines "Bath"

-- in the group of "a" and "c", "a" goes down to 2 and "c" goes up to 0
bath_moves :
    (move_down_index lines (members_of "Bath" (grouped_line_items lines)) 0 ≡ some 2)
    × (move_up_index lines (members_of "Bath" (grouped_line_items lines)) 1 ≡ some 0)
unfolding move_down_index move_up_index grouped_line_items group_name_of trim
bath_moves = (refl, refl)

move_index-neighbour_example :
    Names lines "c" (move_down_index lines (members_of "Bath" (grouped_line_items lines)) 0)
    × Names lines "a" (move_up_index lines (members_of "Bath" (grouped_line_items lines)) 1)
unfolding grouped_line_items group_name_of trim
move_index-neighbour_example =
    move_index-neighbour lines "Bath" 0 (line "a" (some "Bath")) (line "c" (some " Bath ")) refl
      refl

abbrev ticked : Ids
ticked = "a" ∷ "z" ∷ []

toggle_all_selection-all_selected_example :
    (has (toggle_all_selection lines true ticked) "d" ≡ any (text_eq "d") (line_ids lines))
    × (all_selected lines (toggle_all_selection lines true ticked) ≡ ltb 0 (length lines))
    × (toggle_all_selection lines false ticked ≡ [])
toggle_all_selection-all_selected_example = toggle_all_selection-all_selected "d" lines ticked
