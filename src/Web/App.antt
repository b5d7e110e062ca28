-- ===== src/Web/App.antt =====
-- apps/web/src/stores/authStore.ts and stores/adminAuthStore.ts, with what the rest of the client is
-- seen to do: its location, the requests sent and the replies that are still to come.
use remodelator.Base.{ℕ, String, Bool, false, not, Option, none, some, List}
use remodelator.Base.Json.{Json}
use remodelator.Base.Text.{text_eq, is_empty}

-- what `JSON.parse` does: a value, or the message of its `SyntaxError`
pub data Parsed : Type 0 where
  document : Json → Parsed
  syntax_error : String → Parsed

-- The functions and settings that the client uses and does not define.
pub record Runtime : Type 0 where
  -- `API_BASE`, from the build's environment
  pub api_base : String
  pub parse_json : String → Parsed
  -- `String(v)` of a value that is no text
  pub to_text : Json → String
  -- whether the text of a JSON number stands for 0
  pub is_zero : String → Bool

-- a request as `fetch` receives it; the body is the value given to `JSON.stringify`
pub record Sent : Type 0 where
  pub url : String
  pub verb : String
  pub body : Option Json
  pub headers : List (String × String)

-- `fetch` rejects, or answers with a status, its text and a body
pub data Reply : Type 0 where
  rejected : String → Reply
  answered : ℕ → String → String → Reply

pub record AuthState : Type 0 where
  pub token : Option String
  pub user_id : Option String
  pub email : Option String
  pub role : Option String

pub record App : Type 0 where
  pub auth : AuthState
  pub admin_api_key : String
  pub location : String
  pub sent : List Sent
  pub replies : List Reply

pub record AuthResponse : Type 0 where
  pub user_id : String
  pub email : String
  pub role : String
  pub session_token : String

unfoldable pub set_auth : AuthResponse → App → App
set_auth response app = record app {
  auth = record {
    token = some response.session_token;
    user_id = some response.user_id;
    email = some response.email;
    role = some response.role;
  };
}

unfoldable pub clear_auth : App → App
clear_auth app = record app {
  auth = record { token = none; user_id = none; email = none; role = none };
}

-- `!!token`
abbrev pub is_present : Option String → Bool
is_present none = false
is_present (some s) = not (is_empty s)

abbrev pub is_text : Option String → String → Bool
is_text none s = false
is_text (some r) s = text_eq r s

unfoldable pub is_authenticated : App → Bool
is_authenticated app = is_present app.auth.token

unfoldable pub is_admin : App → Bool
is_admin app = is_text app.auth.role "admin"

unfoldable pub set_admin_api_key : String → App → App
set_admin_api_key value app = record app { admin_api_key = value }

unfoldable pub clear_admin_api_key : App → App
clear_admin_api_key app = record app { admin_api_key = "" }

-- react-router's `navigate`
abbrev pub navigate : String → App → App
navigate to app = record app { location = to }
