-- ===== src/Legacy/Session.antt =====
-- archive/apps/web/src_legacy/lib: storage.ts, session.ts and useSessionStorage.ts.
pub mod Laws
use remodelator.Base.{
  String, Bool, true, false, Option, none, some, List, [], ◌∷◌, if◌then◌else◌, get_or_else,
}
use remodelator.Base.Text.{text_eq, is_empty}
use remodelator.Legacy.Monad.{World, ok, M, ⊤, Storage, Platform, Json, Fields, get_field}
use remodelator.Legacy.Types.{Session}

abbrev pub lookup : String → List (String × String) → Option String
lookup key [] = none
lookup key ((k, v) ∷ rest) = if text_eq k key then some v else lookup key rest

abbrev pub insert : String → String → List (String × String) → List (String × String)
insert key value [] = (key, value) ∷ []
insert key value ((k, v) ∷ rest) =
    if text_eq k key then (k, value) ∷ rest else (k, v) ∷ insert key value rest

abbrev pub erase : String → List (String × String) → List (String × String)
erase key [] = []
erase key ((k, v) ∷ rest) = if text_eq k key then erase key rest else (k, v) ∷ erase key rest

unfoldable pub read_storage : Storage → String → Option String
read_storage none key = none
read_storage (some items) key = lookup key items

unfoldable pub write_storage : Storage → String → String → Storage
write_storage none key value = none
write_storage (some items) key value = some (insert key value items)

unfoldable pub remove_storage : Storage → String → Storage
remove_storage none key = none
remove_storage (some items) key = some (erase key items)

abbrev pub session_key : String
session_key = "remodelator_web_session"

abbrev pub admin_key_storage : String
admin_key_storage = "remodelator_web_admin_key"

-- a member that is a text and not empty
abbrev nonempty_text : Option Json → Option String
nonempty_text (some (Json.text s)) = if is_empty s then none else some s
nonempty_text _ = none

abbrev role_of : Option Json → String
role_of (some (Json.text s)) = s
role_of _ = "user"

-- A truthy `email` of another type than text is kept by the code as it is; the type `Session` has no
-- such value, and the model rejects it.
abbrev session_of : Option String → Option String → String → Option Session
session_of (some email) (some token) role =
    some (record { email = email; session_token = token; role = role })
session_of _ _ _ = none

read_session : Option Json → Option Session
read_session (some (Json.object fields)) =
    session_of (nonempty_text (get_field "email" fields))
      (nonempty_text (get_field "sessionToken" fields)) (role_of (get_field "role" fields))
read_session _ = none

unfoldable pub parse_stored_session : Platform → Option String → Option Session
unfolding read_session
parse_stored_session platform none = none
parse_stored_session platform (some raw) =
    if is_empty raw then none else read_session (platform.parse_json raw)

unfoldable pub load_stored_session : Platform → Storage → String → Option Session
unfolding parse_stored_session read_storage
load_stored_session platform storage key = parse_stored_session platform (read_storage storage key)

-- the object that `JSON.stringify(next)` writes
abbrev pub session_json : Session → Json
session_json s = Json.object (
    Fields.field "email" (Json.text s.email) (
      Fields.field "sessionToken" (Json.text s.session_token)
        (Fields.field "role" (Json.text s.role) Fields.end)))

abbrev stored : Platform → Option Session → Storage → Storage
stored platform none storage = remove_storage storage session_key
stored platform (some s) storage =
    write_storage storage session_key (platform.stringify (session_json s))

unfoldable pub persist_session : Option Session → M ⊤
unfolding write_storage remove_storage
persist_session next w =
    (ok tt, record w { session = next; storage = stored w.platform next w.storage })

-- the admin key of the render, `o`
unfoldable pub persist_admin_key : World → M ⊤
unfolding write_storage
persist_admin_key o w =
    (ok tt, record w { storage = write_storage w.storage admin_key_storage o.admin_key })
