-- ===== src/Legacy/Api.antt =====
-- archive/apps/web/src_legacy/lib/api.ts: one HTTP call, with the message that a failed one throws.
pub mod Read
pub mod Frame
pub mod Laws
use remodelator.Base.{
  ℕ, String, Bool, true, false, Option, none, some, List, [], ◌∷◌, ◌++◌, if◌then◌else◌,
}
use remodelator.Base.Text.{text_eq, is_empty, trim, is_blank, decimal}
use remodelator.Legacy.Monad.{
  World, Outcome, ok, raised, waiting, off_contract, M, Request, Reply, Payload, Detail,
  ErrorEnvelope, Body, Headers, Method,
}
use Prim.Native.String.{◌++◌ as text_append}

-- `HTTP ${status}`
abbrev pub http_status : ℕ → String
http_status status = text_append "HTTP " (decimal status)

-- the `msg` of the first entry of `detail`
validation_message : Option String → String
validation_message none = "Validation failed."
validation_message (some msg) =
    if is_empty msg then "Validation failed." else text_append "Validation failed: " msg

detail_message : Detail → ℕ → String
detail_message (Detail.text s) status = if is_blank s then http_status status else s
detail_message Detail.empty_array status = http_status status
detail_message (Detail.array msg) status = validation_message msg
detail_message Detail.other status = http_status status

unfoldable pub extract_error_message : ErrorEnvelope → ℕ → String
unfolding validation_message detail_message
extract_error_message payload status = elim (payload.error_message) [
  | none ↦ detail_message payload.detail status
  | some message ↦ if is_blank message then detail_message payload.detail status else trim message
]

unfoldable pub with_request_id : String → Option String → String
with_request_id message none = message
with_request_id message (some request_id) =
    if is_blank request_id
    then message
    else text_append message (text_append " (request_id: " (text_append (trim request_id) ")"))

-- `{ ...headers, name: value }`
abbrev pub assign : Headers → String → String → Headers
assign [] name value = (name, value) ∷ []
assign ((n, v) ∷ rest) name value =
    if text_eq n name then (n, value) ∷ rest else (n, v) ∷ assign rest name value

-- `{ ...headers, ...extra }`
abbrev pub spread : Headers → Headers → Headers
spread headers [] = headers
spread headers ((name, value) ∷ rest) = spread (assign headers name value) rest

abbrev pub request_headers : Headers → Headers
request_headers extra = spread (("Content-Type", "application/json") ∷ []) extra

failure_message : ℕ → Option ErrorEnvelope → String
failure_message status none = http_status status
failure_message status (some payload) =
    with_request_id (extract_error_message payload status) payload.request_id

read_payload : {A : Type 0} → Option A → World → Outcome A × World
read_payload none w = (off_contract, w)
read_payload (some a) w = (ok a, w)

-- what the caller sees of a reply
settle : {A : Type 0} → Reply → (Payload → Option A) → M A
settle (Reply.network_error message) read w = (raised message, w)
settle (Reply.failed status payload) read w = (raised (failure_message status payload), w)
settle (Reply.bad_json message) read w = (raised message, w)
settle (Reply.success payload) read w = read_payload (read payload) w

take_reply : {A : Type 0} → List Reply → (Payload → Option A) → M A
take_reply [] read w = (waiting, w)
take_reply (reply ∷ rest) read w = settle reply read (record w { replies = rest })

abbrev send : Request → World → World
send request w = record w { sent = w.sent ++ request ∷ [] }

unfoldable pub api_request :
    {A : Type 0} → String → Method → Option Body → Headers → (Payload → Option A) → M A
unfolding failure_message read_payload settle take_reply
api_request path verb body extra read w =
    take_reply w.replies read
      (send (record { path = path; verb = verb; body = body; headers = request_headers extra }) w)
