-- ===== src/Web/Auth/Forms.antt =====
-- apps/web/src/features/auth: schemas.ts, and what the forms of sign-in send. zod's test of an email and
-- its length of a text are parameters.
use Prim.Native.String.{◌++◌ as text_append}
use remodelator.Base.{ℕ, String, Bool, ◌&&◌, Option, none, some, leb, if◌then◌else◌}
use remodelator.Base.Json.{Json}
use remodelator.Base.Text.{text_eq, is_empty}
use remodelator.Web.Api.Send.{Encoding}
use remodelator.Web.App.{App, Runtime, navigate}
use remodelator.Web.Auth.{login, register, request_password_reset, confirm_password_reset, text_of}
use remodelator.Web.Client.{Result, member}

pub record Checks : Type 0 where
  pub is_email : String → Bool
  pub size : String → ℕ

module _ (zod : Checks) where
  abbrev between : ℕ → ℕ → String → Bool
  between low high s = leb low (zod.size s) && leb (zod.size s) high

  abbrev valid_email : String → Bool
  valid_email email = zod.is_email email && between 5 255 email

  unfoldable pub login_schema : String → String → Bool
  login_schema email password = valid_email email && between 8 128 password

  unfoldable pub register_schema : String → String → String → Bool
  register_schema full_name email password =
      between 1 255 full_name && valid_email email && between 8 128 password

  unfoldable pub forgot_password_schema : String → Bool
  forgot_password_schema email = valid_email email

  unfoldable pub reset_password_schema : String → String → String → Bool
  reset_password_schema token new_password confirm_password =
      between 10 512 token
      && between 8 128 new_password
      && between 8 128 confirm_password
      && text_eq new_password confirm_password

  module _ (js : Runtime) where
    -- `handleSubmit(onSubmit)`: `none` where the form is refused, else what the mutation comes to
    unfoldable pub submit_login : String → String → App → Option (Option (Result × App))
    unfolding login_schema login
    submit_login email password app =
        if login_schema email password then some (login js email password app) else none

    unfoldable pub submit_register : String → String → String → App → Option (Option (Result × App))
    unfolding register_schema register
    submit_register full_name email password app =
        if register_schema full_name email password
        then some (register js email password full_name app)
        else none

    unfoldable pub submit_forgot_password : String → App → Option (Result × App)
    unfolding forgot_password_schema request_password_reset
    submit_forgot_password email app =
        if forgot_password_schema email then some (request_password_reset js email app) else none

    unfoldable pub submit_reset_password :
        String → String → String → App → Option (Option (Result × App))
    unfolding reset_password_schema confirm_password_reset
    submit_reset_password token new_password confirm_password app =
        if reset_password_schema token new_password confirm_password
        then some (confirm_password_reset js token new_password app)
        else none

-- the address of the reset, if the reply has a token that is not empty
abbrev go_to_reset : Encoding → Option String → App → App
go_to_reset web none app = app
go_to_reset web (some token) app =
    if is_empty token
    then app
    else navigate (text_append "/reset-password?token=" (web.encode_uri_component token)) app

-- `onSuccess` of ForgotPasswordPage: the message that is shown, and where it goes
unfoldable pub reset_requested : Encoding → Json → App → Option String × App
reset_requested web body app =
    (text_of (member body "message"), go_to_reset web (text_of (member body "reset_token")) app)
