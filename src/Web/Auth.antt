-- ===== src/Web/Auth.antt =====
-- apps/web/src/features/auth: useAuth.ts and the guards round the routes.
pub mod Laws
pub mod Forms
use remodelator.Base.{String, Bool, Option, none, some, List, [], ◌∷◌, not, if◌then◌else◌}
use remodelator.Base.Json.{Json, Fields}
use remodelator.Web.App.{
  App, Runtime, AuthResponse, set_auth, clear_auth, clear_admin_api_key, navigate, is_authenticated,
  is_admin, is_present, is_text,
}
use remodelator.Web.Client.{Result, member, post}

-- `onSuccess` of the three mutations that sign in
unfoldable pub signed_in : AuthResponse → App → App
unfolding set_auth clear_admin_api_key
signed_in res app = navigate "/" (clear_admin_api_key (set_auth res app))

unfoldable pub logout : App → App
unfolding clear_auth clear_admin_api_key
logout app = navigate "/login" (clear_admin_api_key (clear_auth app))

-- The reply as an `AuthResponse`; `none` where a member is missing or no text.
abbrev pub text_of : Option Json → Option String
text_of (some (Json.text s)) = some s
text_of _ = none

abbrev response_of :
    Option String → Option String → Option String → Option String → Option AuthResponse
response_of (some user_id) (some email) (some role) (some session_token) =
    some (record { user_id = user_id; email = email; role = role; session_token = session_token })
response_of _ _ _ _ = none

unfoldable pub auth_response : Json → Option AuthResponse
auth_response body =
    response_of (text_of (member body "user_id")) (text_of (member body "email"))
      (text_of (member body "role")) (text_of (member body "session_token"))

-- a sign-in succeeds, or leaves the stores as they are; `none` is a reply off the contract
abbrev after_reply : Result × App → Option (Result × App)
after_reply (Result.returned body, app) = elim (auth_response body) [
  | none ↦ none
  | some res ↦ some (Result.returned body, signed_in res app)
]
after_reply (result, app) = some (result, app)

-- an object with text members
abbrev pub texts : List (String × String) → Fields
texts [] = Fields.end
texts ((name, v) ∷ rest) = Fields.field name (Json.text v) (texts rest)

module _ (js : Runtime) where
  unfoldable pub login : String → String → App → Option (Result × App)
  unfolding auth_response signed_in post
  login email password app = after_reply (
      post js "/auth/login"
        (some (Json.object (texts (("email", email) ∷ ("password", password) ∷ [])))) app)

  unfoldable pub register : String → String → String → App → Option (Result × App)
  unfolding auth_response signed_in post
  register email password full_name app = after_reply (
      post js "/auth/register"
        (some (
          Json.object
            (texts (("email", email) ∷ ("password", password) ∷ ("full_name", full_name) ∷ []))))
        app)

  unfoldable pub request_password_reset : String → App → Result × App
  unfolding post
  request_password_reset email =
      post js "/auth/password-reset/request" (some (Json.object (texts (("email", email) ∷ []))))

  unfoldable pub confirm_password_reset : String → String → App → Option (Result × App)
  unfolding auth_response signed_in post
  confirm_password_reset token new_password app = after_reply (
      post js "/auth/password-reset/confirm"
        (some (Json.object (texts (("token", token) ∷ ("new_password", new_password) ∷ [])))) app)

-- a guarded route: its page, or a redirection
pub data Shown : Type 0 where
  children : Shown
  redirect : String → Shown

unfoldable pub auth_guard : App → Shown
auth_guard app = if not (is_present app.auth.token) then redirect "/login" else children

unfoldable pub admin_guard : App → Shown
admin_guard app = if not (is_text app.auth.role "admin") then redirect "/" else children
