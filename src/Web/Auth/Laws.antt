-- ===== src/Web/Auth/Laws.antt =====
-- useAuth.ts with client.ts and the guards: what a sign-in and a sign-out change.
use remodelator.Base.{not, if◌then◌else◌, ◌≡◌, refl, String, Bool, true, false, [], ◌∷◌}
use remodelator.Base.Text.{is_empty, text_eq, trim}
use remodelator.Web.App.{App, AuthResponse}
use remodelator.Web.Auth.{Shown, signed_in, logout, auth_guard, admin_guard}
use remodelator.Web.Client.{request_headers}

-- After a sign-out no request carries a token or an admin key, and both guards redirect.
pub logout-Anonymous :
    (app : App) (path verb : String)
    → (request_headers (logout app) path verb ≡ ("Content-Type", "application/json") ∷ [])
      × (auth_guard (logout app) ≡ Shown.redirect "/login")
      × (admin_guard (logout app) ≡ Shown.redirect "/")
unfolding logout request_headers auth_guard admin_guard trim
logout-Anonymous app path verb = (refl, refl, refl)

guarded_by :
    (b : Bool)
    → (if not b then Shown.redirect "/" else Shown.children)
      ≡ (if b then Shown.children else Shown.redirect "/")
guarded_by true = refl
guarded_by false = refl

-- After a sign-in with a token every request carries that token and no admin key, whatever key was set
-- before; the guard of the signed-in pages lets them through, and that of the admin pages just for the
-- role "admin".
pub signed_in-HasToken :
    (app : App) (res : AuthResponse) (path verb : String)
    → is_empty res.session_token ≡ false
    → (request_headers (signed_in res app) path verb
        ≡ ("Content-Type", "application/json") ∷ ("x-session-token", res.session_token) ∷ [])
      × (auth_guard (signed_in res app) ≡ Shown.children)
      × (admin_guard (signed_in res app)
          ≡ (if text_eq res.role "admin" then Shown.children else Shown.redirect "/"))
unfolding signed_in request_headers auth_guard admin_guard trim
signed_in-HasToken app res path verb given =
    rw given (refl, refl, guarded_by (text_eq res.role "admin"))
