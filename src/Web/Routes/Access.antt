-- ===== src/Web/Routes/Access.antt =====
-- What a visitor is, for the routes of App.tsx: nobody, a user, or an administrator.
use remodelator.Base.{String, Bool, true, false, List, [], ◌∷◌, not}
use remodelator.Base.Text.{text_eq, is_empty}
use remodelator.Web.App.{App, Runtime, AuthResponse, is_present, is_text, set_admin_api_key}
use remodelator.Web.Api.Calls.{Call}
use remodelator.Web.Api.Send.{Encoding, perform}
use remodelator.Web.Auth.{signed_in, logout}
use remodelator.Web.Routes.{
  Page, Route, login_page, dashboard_page, public_route, guarded_route, admin_route, catch_all,
}

pub data Access : Type 0 where
  guest member administrator : Access

abbrev pub access_with : Bool → Bool → Access
access_with false is_admin = guest
access_with true false = member
access_with true true = administrator

abbrev pub access_of : App → Access
access_of app = access_with (is_present app.auth.token) (is_text app.auth.role "admin")

-- the page at which a visitor ends
abbrev pub permitted : Access → Route → Page
permitted who (public_route p) = p
permitted guest (guarded_route p) = login_page
permitted who (guarded_route p) = p
permitted guest (admin_route p) = login_page
permitted member (admin_route p) = dashboard_page
permitted administrator (admin_route p) = p
permitted guest catch_all = login_page
permitted who catch_all = dashboard_page

-- what happens to the stores: a sign-in, a logout, a new admin key, a call
pub data Change : Type 0 where
  sign_in : AuthResponse → Change
  sign_out : Change
  admin_key : String → Change
  call : Call → Change

module _ (js : Runtime) (web : Encoding) where
  unfoldable pub change : Change → App → App
  unfolding signed_in logout perform set_admin_api_key
  change (sign_in response) app = signed_in response app
  change sign_out app = logout app
  change (admin_key value) app = set_admin_api_key value app
  change (call c) app = (perform js web c app).1

  unfoldable pub changes : List Change → App → App
  unfolding change
  changes [] app = app
  changes (c ∷ rest) app = changes rest (change c app)

-- the same for a visitor
abbrev pub next_access : Change → Access → Access
next_access (sign_in response) who =
    access_with (not (is_empty response.session_token)) (text_eq response.role "admin")
next_access sign_out who = guest
next_access (admin_key value) who = who
next_access (call c) who = who

abbrev pub accesses : List Change → Access → Access
accesses [] who = who
accesses (c ∷ rest) who = accesses rest (next_access c who)
