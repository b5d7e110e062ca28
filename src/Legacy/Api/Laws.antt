-- ===== src/Legacy/Api/Laws.antt =====
-- api.ts: the message of a call that the server refuses.
use Prim.Native.String.{◌++◌ as text_append}
use text.Mathlib.TextLemmas.{cons-append}
use remodelator.Base.{
  ℕ, ◌≡◌, refl, String, false, Option, none, some, List, ◌∷◌, Bool-cases, inl, inr,
}
use remodelator.Base.Text.{is_empty, is_blank, trim}
use remodelator.Legacy.Api.{
  api_request, failure_message, extract_error_message, with_request_id, detail_message,
  validation_message, http_status, take_reply, settle,
}
use remodelator.Legacy.Monad.{
  World, raised, Reply, Payload, Detail, ErrorEnvelope, Body, Headers, Method,
}

append-nonempty : (a b : String) → is_empty a ≡ false → is_empty (text_append a b) ≡ false
append-nonempty String.[] b h = cc
append-nonempty (String.◌∷◌ c s) b h = rw cons-append refl

http_status-nonempty : (status : ℕ) → is_empty (http_status status) ≡ false
http_status-nonempty status = append-nonempty "HTTP " _ refl

-- a text that is not blank is not empty
blank-empty : (s : String) → is_blank s ≡ false → is_empty s ≡ false
unfolding trim
blank-empty String.[] h = h
blank-empty (String.◌∷◌ c s) h = refl

validation_message-nonempty : (msg : Option String) → is_empty (validation_message msg) ≡ false
unfolding validation_message
validation_message-nonempty none = refl
validation_message-nonempty (some msg) = elim (Bool-cases (is_empty msg)) [
  | inl e ↦ rw e refl
  | inr e ↦ rw e (append-nonempty "Validation failed: " msg refl)
]

detail_message-nonempty :
    (detail : Detail) (status : ℕ) → is_empty (detail_message detail status) ≡ false
unfolding detail_message
detail_message-nonempty (Detail.text s) status = elim (Bool-cases (is_blank s)) [
  | inl e ↦ rw e (http_status-nonempty status)
  | inr e ↦ rw e (blank-empty s e)
]
detail_message-nonempty Detail.empty_array status = http_status-nonempty status
detail_message-nonempty (Detail.array msg) status = validation_message-nonempty msg
detail_message-nonempty Detail.other status = http_status-nonempty status

error_message-nonempty :
    (message : Option String) (detail : Detail) (request_id : Option String) (status : ℕ)
    → is_empty (
        extract_error_message
          record { error_message = message; detail = detail; request_id = request_id }
          status)
      ≡ false
unfolding extract_error_message
error_message-nonempty none detail request_id status = detail_message-nonempty detail status
error_message-nonempty (some message) detail request_id status =
    elim (Bool-cases (is_blank message)) [
      | inl e ↦ rw e (detail_message-nonempty detail status)
      | inr e ↦ rw e e
    ]

with_request_id-nonempty :
    (message : String) (request_id : Option String)
    → is_empty message ≡ false
    → is_empty (with_request_id message request_id) ≡ false
unfolding with_request_id
with_request_id-nonempty message none h = h
with_request_id-nonempty message (some id) h = elim (Bool-cases (is_blank id)) [
  | inl e ↦ rw e h
  | inr e ↦ rw e (append-nonempty message _ h)
]

failure_message-nonempty :
    (status : ℕ) (payload : Option ErrorEnvelope)
    → is_empty (failure_message status payload) ≡ false
unfolding failure_message
failure_message-nonempty status none = http_status-nonempty status
failure_message-nonempty status (some payload) =
    with_request_id-nonempty _ payload.request_id
      (error_message-nonempty payload.error_message payload.detail payload.request_id status)

-- A call that the server refuses throws a message that is not empty, whatever the body of the reply is.
pub api_request-refused :
    {A : Type 0} (path : String) (verb : Method) (body : Option Body) (extra : Headers)
    (read : Payload → Option A) (w : World) (status : ℕ) (payload : Option ErrorEnvelope)
    (rest : List Reply)
    → w.replies ≡ Reply.failed status payload ∷ rest
    → (message : String) × ((api_request path verb body extra read w).0 ≡ raised message)
      × (is_empty message ≡ false)
unfolding api_request take_reply settle
api_request-refused path verb body extra read w status payload rest e =
    (failure_message status payload, rw e refl, failure_message-nonempty status payload)
