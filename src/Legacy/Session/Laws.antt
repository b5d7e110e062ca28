-- ===== src/Legacy/Session/Laws.antt =====
-- session.ts and useSessionStorage.ts: storing a session and loading it.
use remodelator.Base.{◌≡◌, refl, String, false, some, List, [], ◌∷◌, Bool-cases, inl, inr}
use remodelator.Base.Text.{text_eq, text_eq_refl, is_empty}
use remodelator.Legacy.Monad.{World}
use remodelator.Legacy.Session.{
  lookup, insert, persist_session, load_stored_session, session_json, session_key, read_session,
}
use remodelator.Legacy.Types.{Session}

lookup-insert_self :
    (key value : String) (items : List (String × String))
    → lookup key (insert key value items) ≡ some value
lookup-insert_self key value [] = rw text_eq_refl
lookup-insert_self key value ((k, v) ∷ rest) = elim (Bool-cases (text_eq k key)) [
  | inl same ↦ rw (same, same)
  | inr other ↦ rw (other, other) (lookup-insert_self key value rest)
]

read_session-session_json :
    (s : Session)
    → is_empty s.email ≡ false
    → is_empty s.session_token ≡ false
    → read_session (some (session_json s)) ≡ some s
unfolding read_session
read_session-session_json s email token = rw (email, token) refl

-- A session with an email and a token that `persistSession` stores in a working `localStorage` is the
-- one that the next start loads, where `JSON.parse` undoes `JSON.stringify` on it and the text
-- written is not empty.
pub load_stored_session-persist_session :
    (w : World) (s : Session) (items : List (String × String))
    → w.storage ≡ some items
    → is_empty s.email ≡ false
    → is_empty s.session_token ≡ false
    → w.platform.parse_json (w.platform.stringify (session_json s)) ≡ some (session_json s)
    → is_empty (w.platform.stringify (session_json s)) ≡ false
    → load_stored_session w.platform (persist_session (some s) w).1.storage session_key ≡ some s
unfolding persist_session load_stored_session
load_stored_session-persist_session w s items stored email token inverse written =
    rw (stored, lookup-insert_self, written, inverse) (read_session-session_json s email token)
