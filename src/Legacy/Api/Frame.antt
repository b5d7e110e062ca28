-- ===== src/Legacy/Api/Frame.antt =====
-- What one call of archive/apps/web/src_legacy/lib/api.ts changes.
use remodelator.Base.{◌≡◌, refl, String, Option, none, some, List, [], ◌∷◌, ◌++◌}
use remodelator.Legacy.Api.{api_request, request_headers, take_reply, settle, read_payload}
use remodelator.Legacy.Monad.{World, Reply, Payload, Body, Headers, Method}

-- the replies that are left after one is taken
abbrev pub rest : List Reply → List Reply
rest [] = []
rest (_ ∷ replies) = replies

read_payload-state : {A : Type 0} (o : Option A) (w : World) → (read_payload o w).1 ≡ w
unfolding read_payload
read_payload-state none w = refl
read_payload-state (some a) w = refl

settle-state :
    {A : Type 0} (reply : Reply) (read : Payload → Option A) (w : World)
    → (settle reply read w).1 ≡ w
unfolding settle
settle-state (Reply.network_error message) read w = refl
settle-state (Reply.failed status payload) read w = refl
settle-state (Reply.bad_json message) read w = refl
settle-state (Reply.success payload) read w = read_payload-state (read payload) w

take_reply-state :
    {A : Type 0} (replies : List Reply) (read : Payload → Option A) (w : World)
    → w.replies ≡ replies
    → (take_reply replies read w).1 ≡ record w { replies = rest replies }
unfolding take_reply
take_reply-state [] read w e = λ i. record w { replies = e i }
take_reply-state (reply ∷ replies) read w e = settle-state reply read _

module _ {A : Type 0} (path : String) (verb : Method) (body : Option Body) (extra : Headers)
    (read : Payload → Option A) (w : World) where
  pub api_request-state : (api_request path verb body extra read w).1 ≡ record w {
    sent =
        w.sent
        ++ record { path = path; verb = verb; body = body; headers = request_headers extra } ∷ [];
    replies = rest w.replies;
  }
  unfolding api_request
  api_request-state = take_reply-state w.replies read _ refl
