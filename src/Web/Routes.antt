-- ===== src/Web/Routes.antt =====
-- apps/web/src/App.tsx: the pages under their paths, the guards round them, and where a visit ends. A path
-- is the list of its segments, as react-router splits it.
pub mod Laws
pub mod Access
use remodelator.Base.{ℕ, zero, suc, String, Bool, Option, none, some, List, [], ◌∷◌, if◌then◌else◌}
use remodelator.Web.App.{App}
use remodelator.Web.Auth.{Shown, auth_guard, admin_guard}

pub data Page : Type 0 where
  login_page register_page forgot_password_page reset_password_page : Page
  public_proposal_page : String → Page
  dashboard_page estimate_list_page catalog_page template_list_page billing_page : Page
  settings_page admin_dashboard_page : Page
  estimate_detail_page proposal_page : String → Page

-- an entry of the table of routes: open to all, behind `AuthGuard`, behind both guards, or the last one
pub data Route : Type 0 where
  public_route guarded_route admin_route : Page → Route
  catch_all : Route

-- what an address shows at once
pub data Visit : Type 0 where
  page : Page → Visit
  go_to : String → Visit

abbrev guarded : Shown → Visit → Visit
guarded Shown.children inner = inner
guarded (Shown.redirect to) inner = go_to to

unfoldable pub enter : App → Route → Visit
unfolding auth_guard admin_guard
enter app (public_route p) = page p
enter app (guarded_route p) = guarded (auth_guard app) (page p)
enter app (admin_route p) = guarded (auth_guard app) (guarded (admin_guard app) (page p))
enter app catch_all = go_to "/"

abbrev pub arrive : (String → Option Page) → Visit → Option Page
arrive next (page p) = some p
arrive next (go_to to) = next to

-- `matches` is react-router's test of a segment against one of the table
module _ (matches : String → String → Bool) where
  unfoldable pub one_segment : String → Route
  one_segment s =
      if matches "login" s
      then public_route login_page
      else if matches "register" s
      then public_route register_page
      else if matches "forgot-password" s
      then public_route forgot_password_page
      else if matches "reset-password" s
      then public_route reset_password_page
      else if matches "estimates" s
      then guarded_route estimate_list_page
      else if matches "catalog" s
      then guarded_route catalog_page
      else if matches "templates" s
      then guarded_route template_list_page
      else if matches "billing" s
      then guarded_route billing_page
      else if matches "settings" s
      then guarded_route settings_page
      else if matches "admin" s
      then admin_route admin_dashboard_page
      else catch_all

  two_segments : String → String → Route
  two_segments s id =
      if matches "estimates" s then guarded_route (estimate_detail_page id) else catch_all

  three_segments : String → String → String → Route
  three_segments s id t =
      if matches "proposal" s
      then if matches "public" id then public_route (public_proposal_page t) else catch_all
      else if matches "estimates" s
      then if matches "proposal" t then guarded_route (proposal_page id) else catch_all
      else catch_all

  -- the table
  unfoldable pub route_of : List String → Route
  unfolding one_segment two_segments three_segments
  route_of [] = guarded_route dashboard_page
  route_of (s ∷ []) = one_segment s
  route_of (s ∷ t ∷ []) = two_segments s t
  route_of (s ∷ t ∷ u ∷ []) = three_segments s t u
  route_of (s ∷ t ∷ u ∷ v ∷ rest) = catch_all

  -- redirections are followed while the fuel lasts
  unfoldable pub follow : (String → List String) → App → ℕ → List String → Option Page
  unfolding route_of enter
  follow segments app zero path = none
  follow segments app (suc fuel) path =
      arrive (λ to. follow segments app fuel (segments to)) (enter app (route_of path))
