-- ===== src/Legacy/Actions/Auth.antt =====
-- archive/apps/web/src_legacy/lib/authActions.ts
pub mod Laws
use remodelator.Base.{String, Option, none, some, [], ◌∷◌, if◌then◌else◌, get_or_else}
use remodelator.Base.Text.{is_empty}
use remodelator.Legacy.Api.{api_request}
use remodelator.Legacy.Api.Read.{as_auth}
use remodelator.Legacy.Monad.{World, M, ⊤, throw, ◌>>=◌, ◌>>◌, Method, Value, AuthPayload, set_auth}
use remodelator.Legacy.Reset.{clear_workspace, reset_profile}
use remodelator.Legacy.Runner.{push_log, run}
use remodelator.Legacy.Session.{persist_session}
use remodelator.Legacy.Types.{Session}

-- the session of a reply with a token
abbrev session_of : AuthPayload → String → Session
session_of payload token = record {
  email = payload.email;
  session_token = token;
  role = get_or_else payload.role "user";
}

-- `if (!payload.session_token) throw ...`, else the session is stored
sign_in : AuthPayload → String → Option String → M ⊤
sign_in payload refusal none = throw refusal
sign_in payload refusal (some token) =
    if is_empty token then throw refusal else persist_session (some (session_of payload token))

module _ (o : World) where
  register : M ⊤
  unfolding sign_in
  register = do
    payload ←
        api_request "/auth/register" Method.post_method
          (some (
            ("email", Value.text o.auth.register_email)
            ∷ ("password", Value.text o.auth.register_password)
            ∷ ("full_name", Value.text o.auth.register_name)
            ∷ []))
          [] as_auth
    sign_in payload "Registration succeeded but no session token was returned."
        payload.session_token
    set_auth
        λ a. record a { login_email = payload.email; register_password = ""; login_password = "" }

  unfoldable pub on_register : M ⊤
  unfolding register
  on_register = run "Register" register

  login : M ⊤
  unfolding sign_in
  login = do
    payload ←
        api_request "/auth/login" Method.post_method
          (some (
            ("email", Value.text o.auth.login_email)
            ∷ ("password", Value.text o.auth.login_password)
            ∷ []))
          [] as_auth
    sign_in payload "Login succeeded but no session token was returned." payload.session_token
    set_auth (λ a. record a { login_password = "" })

  unfoldable pub on_login : M ⊤
  unfolding login
  on_login = run "Login" login

unfoldable pub on_logout : M ⊤
on_logout = do persist_session none; clear_workspace; reset_profile; push_log "Logged out"
