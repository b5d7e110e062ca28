-- ===== src/Legacy/Tests.antt =====
-- Worlds and values at which the theorems on archive/apps/web/src_legacy are applied.
mod Commands
mod Values
use remodelator.Base.{
  ℕ, ◌≤◌, ◌<◌, ◌≡◌, refl, ◌⊎◌, String, true, false, none, some, List, [], ◌∷◌, length, All, arith,
}
use remodelator.Base.Text.{trim, is_empty}
use remodelator.Legacy.Actions.Admin.{parse_limit, parse_retention_days, on_admin_request}
use remodelator.Legacy.Actions.Admin.Laws.{parse_limit_pos, on_admin_request-no_key}
use remodelator.Legacy.Actions.Auth.{on_logout}
use remodelator.Legacy.Actions.Auth.Laws.{SignedOut, on_logout-SignedOut}
use remodelator.Legacy.Actions.Billing.{on_simulate_estimate_charge}
use remodelator.Legacy.Actions.Billing.Laws.{on_simulate_estimate_charge-masks_failure}
use remodelator.Legacy.Actions.Card.{size, clean_last4}
use remodelator.Legacy.Actions.Card.Laws.{AllDigits, clean_last4-AllDigits}
use remodelator.Legacy.Actions.Reorder.{quickstart_max_items, line_index, reorder_target}
use remodelator.Legacy.Actions.Reorder.Laws.{
  quickstart_max_items_bounds, quickstart_max_items_exact, reorder_target-IsNeighbour,
  reorder_target-IsAtEnd, IsNeighbour, IsAtEnd,
}
use remodelator.Legacy.Api.{api_request}
use remodelator.Legacy.Api.Laws.{api_request-refused}
use remodelator.Legacy.Api.Read.{as_estimates}
use remodelator.Legacy.Authority.Effects.{session_changed-without_session}
use remodelator.Legacy.Bootstrap.{bootstrap, session_changed}
use remodelator.Legacy.Authority.Commands.{guarded-HasToken, HasToken}
use remodelator.Legacy.Blocked.{guarded-without_session}
use remodelator.Legacy.Commands.{guarded}
use remodelator.Legacy.Commands.Listing.{Guarded}
use remodelator.Legacy.Loaders.{keep_selected_template}
use remodelator.Legacy.Monad.{Method, raised, World, Platform, Reply, M, ⊤, ok, pure, throw}
use remodelator.Legacy.Runner.{run, push_log, started}
use remodelator.Legacy.Session.{load_stored_session, persist_session, session_key, session_json}
use remodelator.Legacy.Session.Laws.{load_stored_session-persist_session}
use remodelator.Legacy.State.{
  initial_auth, initial_profile, initial_forms, initial_llm, initial_catalog, initial_output,
  initial_core, initial_runner,
}
use remodelator.Legacy.Sync.{keep_selected_line}
use remodelator.Legacy.Sync.Laws.{
  HasLine, HasTemplate, keep_selected_line-listed, keep_selected_template-listed,
  keep_selected_line-HasLine, keep_selected_template-HasTemplate,
}
use remodelator.Legacy.Types.{
  ActivePanel, Session, LineItem, TemplateSummary, ReorderDirection, demo_reset,
}

abbrev pub ann : Session
ann = record { email = "ann@example.com"; session_token = "t1"; role = "user" }

-- a browser whose `JSON.stringify` and `JSON.parse` know the session of `ann`
abbrev pub browser : Platform
browser = record {
  clock = λ n. "12:00";
  encode_uri_component = λ s. s;
  encode_params = λ ps. "";
  parse_json = λ s. some (session_json ann);
  stringify = λ j. "{}";
  collates = λ a b. true;
}

abbrev pub signed_out : World
signed_out = record {
  session = none;
  admin_key = "";
  auth = initial_auth;
  profile = initial_profile;
  forms = initial_forms;
  llm = initial_llm;
  catalog = initial_catalog;
  output = initial_output;
  core = initial_core;
  runner = initial_runner;
  storage = some [];
  downloads = [];
  sent = [];
  replies = [];
  ticks = 0;
  platform = browser;
}

abbrev pub signed_in : World
signed_in = record signed_out {
  session = some ann;
  core = record initial_core { selected_estimate_id = some "e1" };
}

-- the same, when the server cannot be reached
abbrev pub offline : World
offline = record signed_in { replies = Reply.network_error "Failed to fetch" ∷ [] }

abbrev pub line : String → LineItem
line id = record {
  id = id;
  estimate_id = "e1";
  sort_order = 0;
  group_name = "General";
  item_name = "Tile";
  quantity = "1";
  unit_price = "10";
  item_markup_pct = "0";
  discount_value = "0";
  discount_is_percent = false;
  labor_hours = "0";
  labor_rate = "0";
  total_price = "10";
}

abbrev pub lines : List LineItem
lines = line "a" ∷ line "b" ∷ line "c" ∷ []

abbrev pub templates : List TemplateSummary
templates = record { id = "t"; name = "Kitchen"; line_item_count = 2; created_at = "" } ∷ []
