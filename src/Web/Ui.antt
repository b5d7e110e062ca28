-- ===== src/Web/Ui.antt =====
-- apps/web/src/stores/uiStore.ts and components/layout/Sidebar.tsx: the sidebar and its links.
use remodelator.Base.{String, Bool, false, not, List, [], ◌∷◌, ◌++◌, if◌then◌else◌}
use remodelator.Base.Text.{text_eq, starts_with}
use remodelator.Web.App.{App, is_text}

pub record UiState : Type 0 where
  pub sidebar_collapsed : Bool

unfoldable pub initial_ui : UiState
initial_ui = record { sidebar_collapsed = false }

unfoldable pub toggle_sidebar : UiState → UiState
toggle_sidebar s = record { sidebar_collapsed = not s.sidebar_collapsed }

unfoldable pub set_sidebar_collapsed : Bool → UiState → UiState
set_sidebar_collapsed collapsed s = record { sidebar_collapsed = collapsed }

-- an entry of the sidebar: where it leads and its label
pub record NavItem : Type 0 where
  pub to : String
  pub label : String

abbrev nav_item : String → String → NavItem
nav_item to label = record { to = to; label = label }

unfoldable pub nav_items : List NavItem
nav_items =
    nav_item "/" "Dashboard"
    ∷ nav_item "/estimates" "Estimates"
    ∷ nav_item "/catalog" "Catalog"
    ∷ nav_item "/templates" "Templates"
    ∷ nav_item "/billing" "Billing"
    ∷ nav_item "/settings" "Settings"
    ∷ []

-- the entries that are shown; that of the administration is for its role only
unfoldable pub shown_items : App → List NavItem
unfolding nav_items
shown_items app =
    if is_text app.auth.role "admin" then nav_items ++ nav_item "/admin" "Admin" ∷ [] else nav_items

unfoldable pub is_active_item : String → NavItem → Bool
is_active_item pathname item =
    if text_eq item.to "/" then text_eq pathname "/" else starts_with pathname item.to
