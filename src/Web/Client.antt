-- ===== src/Web/Client.antt =====
-- apps/web/src/api/client.ts: one request, its headers, and the error that a failed one throws.
pub mod Laws
use Prim.Native.Char.{code}
use Prim.Native.Nat.{◌-◌}
use Prim.Native.String.{◌++◌ as text_append}
use remodelator.Base.{
  ℕ, String, Bool, true, false, not, ◌&&◌, ◌||◌, Option, none, some, List, [], ◌∷◌, ◌++◌, leb, ◌==◌,
  if◌then◌else◌,
}
use remodelator.Base.Json.{Json, Fields, get_field}
use remodelator.Base.Text.{text_eq, is_empty, trim}
use remodelator.Web.App.{App, Parsed, Runtime, Sent, Reply, is_present}

pub record ApiError : Type 0 where
  pub status : ℕ
  pub code : Json
  pub message : String
  pub request_id : Option Json

-- what the promise comes to; `waiting` while the reply has not come
pub data Result : Type 0 where
  returned : Json → Result
  api_error : ApiError → Result
  thrown : String → Result
  waiting : Result

-- `path.split('?')[0]`
unfoldable pub normalized_path : String → String
normalized_path String.[] = String.[]
normalized_path (String.◌∷◌ c s) =
    let rest = normalized_path s in if code c == b'?' then String.[] else String.◌∷◌ c rest

abbrev upper_code : ℕ → ℕ
upper_code c = if leb b'a' c && leb c b'z' then c - 32 else c

-- `s.toUpperCase() === name`, for the letters of ASCII
unfoldable pub upper_is : String → String → Bool
upper_is String.[] String.[] = true
upper_is (String.◌∷◌ c s) (String.◌∷◌ d t) = upper_code (code c) == code d && upper_is s t
upper_is _ _ = false

unfoldable pub requires_admin_key_header : String → String → Bool
unfolding normalized_path upper_is
requires_admin_key_header path verb =
    let base = normalized_path path in
    if not (upper_is verb "POST")
    then false
    else text_eq base "/admin/demo-reset" || text_eq base "/admin/audit-prune"

abbrev pub token_header : Option String → List (String × String)
token_header none = []
token_header (some token) = if is_empty token then [] else ("x-session-token", token) ∷ []

abbrev pub key_header : String → Bool → List (String × String)
key_header key required = if not (is_empty key) && required then ("x-admin-key", key) ∷ [] else []

-- No caller passes headers of its own.
unfoldable pub request_headers : App → String → String → List (String × String)
unfolding requires_admin_key_header
request_headers app path verb =
    ("Content-Type", "application/json") ∷ token_header app.auth.token
    ++ key_header (trim app.admin_api_key) (requires_admin_key_header path verb)

-- `body?.key`
abbrev pub member : Json → String → Option Json
member (Json.object fields) key = get_field key fields
member _ key = none

abbrev pub then_member : Option Json → String → Option Json
then_member none key = none
then_member (some v) key = member v key

module _ (js : Runtime) where
  abbrev pub is_truthy : Json → Bool
  is_truthy Json.null = false
  is_truthy (Json.flag b) = b
  is_truthy (Json.number n) = not (js.is_zero n)
  is_truthy (Json.text s) = not (is_empty s)
  is_truthy (Json.array items) = true
  is_truthy (Json.object fields) = true

  -- the value, if it is truthy
  abbrev pub given : Option Json → Option Json
  given none = none
  given (some v) = if is_truthy v then some v else none

  abbrev pub shown : Json → String
  shown (Json.text s) = s
  shown v = js.to_text v

  -- `a || b || text` as the message of an `Error`
  abbrev pub first_shown : Option Json → Option Json → String → String
  first_shown (some v) second other = shown v
  first_shown none (some v) other = shown v
  first_shown none none other = other

  unfoldable pub error_message : Json → String
  error_message body =
      first_shown (given (then_member (member body "error") "message"))
        (given (member body "detail")) "An unexpected error occurred"

  abbrev or_unknown : Option Json → Json
  or_unknown none = Json.text "unknown_error"
  or_unknown (some v) = v

  -- the constructor of `ApiError`
  unfoldable pub new_api_error : ℕ → Json → ApiError
  unfolding error_message
  new_api_error status body = record {
    status = status;
    code = or_unknown (given (then_member (member body "error") "code"));
    message = error_message body;
    request_id = member body "request_id";
  }

  -- `res.json().catch(() => ({ detail: res.statusText }))`
  abbrev pub error_body : String → Parsed → Json
  error_body status_text (Parsed.document v) = v
  error_body status_text (Parsed.syntax_error message) =
      Json.object (Fields.field "detail" (Json.text status_text) Fields.end)

  -- the value of a successful reply; an empty body is `{}`
  abbrev pub returned_value : String → Parsed → Result
  returned_value text parsed =
      if is_empty text then Result.returned (Json.object Fields.end) else elim parsed [
        | Parsed.document v ↦ Result.returned v
        | Parsed.syntax_error message ↦ Result.thrown message
      ]

  -- `res.ok`
  abbrev pub is_ok : ℕ → Bool
  is_ok status = leb 200 status && leb status 299

  unfoldable pub settle : Reply → Result
  unfolding new_api_error
  settle (Reply.rejected message) = Result.thrown message
  settle (Reply.answered status status_text text) =
      if is_ok status
      then returned_value text (js.parse_json text)
      else Result.api_error (new_api_error status (error_body status_text (js.parse_json text)))

  -- the next reply
  unfoldable pub receive : List Reply → App → Result × App
  unfolding settle
  receive [] app = (Result.waiting, app)
  receive (reply ∷ rest) app = (settle reply, record app { replies = rest })

  unfoldable pub request : String → String → Option Json → App → Result × App
  unfolding request_headers receive
  request path verb body app = receive app.replies (record app {
    sent =
        app.sent
        ++ record {
          url = text_append js.api_base path;
          verb = verb;
          body = body;
          headers = request_headers app path verb;
        }
          ∷ [];
  })

  unfoldable pub get : String → App → Result × App
  unfolding request
  get path = request path "GET" none

  unfoldable pub post : String → Option Json → App → Result × App
  unfolding request
  post path body = request path "POST" body

  unfoldable pub put : String → Option Json → App → Result × App
  unfolding request
  put path body = request path "PUT" body

  unfoldable pub del : String → App → Result × App
  unfolding request
  del path = request path "DELETE" none
