-- ===== src/Web/Client/Laws.antt =====
-- api/client.ts: who gets the admin key.
use remodelator.Base.{
  ◌≡◌, refl, ◌∙◌, ◌⊎◌, inl, inr, String, Bool, true, false, not, ◌&&◌, Option, none, some, List, [],
  ◌∷◌, ◌++◌, arith, Bool-cases, if◌then◌else◌,
}
use remodelator.Base.Compare.{text_eq-true}
use remodelator.Base.Json.{Json}
use remodelator.Base.Text.{text_eq, is_empty, trim}
use remodelator.Web.App.{App, Runtime, Sent, Reply}
use remodelator.Web.Client.{
  normalized_path, requires_admin_key_header, upper_is, request_headers, get, post, put, del,
  request, receive, token_header, key_header,
}

-- the value of a header
abbrev pub header : String → List (String × String) → Option String
header name [] = none
header name ((n, v) ∷ rest) = if text_eq n name then some v else header name rest

-- one of the two endpoints that change the database
abbrev pub IsDestructive : String → Type 0
IsDestructive path =
    (normalized_path path ≡ "/admin/demo-reset") ⊎ (normalized_path path ≡ "/admin/audit-prune")

pub header-token_header :
    (token : Option String) (rest : List (String × String))
    → header "x-admin-key" (token_header token ++ rest) ≡ header "x-admin-key" rest
header-token_header none rest = refl
header-token_header (some token) rest = elim (Bool-cases (is_empty token)) [
  | inl e ↦ rw e refl
  | inr e ↦ rw e refl
]

header-key_header :
    (key : String) (required : Bool)
    → header "x-admin-key" (key_header key required)
      ≡ (if not (is_empty key) && required then some key else none)
header-key_header key required = elim (Bool-cases (not (is_empty key) && required)) [
  | inl e ↦ rw e refl
  | inr e ↦ rw e refl
]

false≢true : false ≡ true → ⊥
false≢true e = cc

pub admin_header :
    (app : App) (path verb : String)
    → header "x-admin-key" (request_headers app path verb) ≡ (
        if not (is_empty (trim app.admin_api_key)) && requires_admin_key_header path verb
        then some (trim app.admin_api_key)
        else none)
unfolding request_headers
admin_header app path verb =
    header-token_header app.auth.token _
    ∙ header-key_header (trim app.admin_api_key) (requires_admin_key_header path verb)

requires_admin_key_header-post :
    (path : String) → requires_admin_key_header path "POST" ≡ true → IsDestructive path
unfolding requires_admin_key_header upper_is
requires_admin_key_header-post path e =
    elim (Bool-cases (text_eq (normalized_path path) "/admin/demo-reset")) [
      | inl reset ↦ inl (text_eq-true (normalized_path path) "/admin/demo-reset" reset)
      | inr other ↦ elim (Bool-cases (text_eq (normalized_path path) "/admin/audit-prune")) [
        | inl prune ↦ inr (text_eq-true (normalized_path path) "/admin/audit-prune" prune)
        | inr neither ↦ absurd (false≢true (rw (other, neither) at e))
      ]
    ]

receive-sent :
    (js : Runtime) (replies : List Reply) (app : App) → (receive js replies app).1.sent ≡ app.sent
unfolding receive
receive-sent js [] app = refl
receive-sent js (reply ∷ rest) app = refl

-- the one request that a call sends satisfies `P`
abbrev pub SendsOne : App → App → (List (String × String) → Type 0) → Type 0
SendsOne before after P = (r : Sent) × (after.sent ≡ before.sent ++ r ∷ []) × P r.headers

-- no admin key, or the trimmed one that is set, for one of the two destructive endpoints
abbrev pub KeyFor : App → String → List (String × String) → Type 0
KeyFor app path headers =
    (header "x-admin-key" headers ≡ none)
    ⊎ ((header "x-admin-key" headers ≡ some (trim app.admin_api_key)) × IsDestructive path)

pub request-SendsOne :
    (js : Runtime) (path verb : String) (body : Option Json) (app : App)
    (P : List (String × String) → Type 0)
    → P (request_headers app path verb)
    → SendsOne app (request js path verb body app).1 P
unfolding request
request-SendsOne js path verb body app P h = (_, receive-sent js app.replies _, h)

no_admin_header :
    (app : App) (path verb : String)
    → requires_admin_key_header path verb ≡ false
    → header "x-admin-key" (request_headers app path verb) ≡ none
no_admin_header app path verb e = admin_header app path verb ∙ rw e (ground arith)

post-KeyFor : (app : App) (path : String) → KeyFor app path (request_headers app path "POST")
post-KeyFor app path = elim (Bool-cases (requires_admin_key_header path "POST")) [
  | inr e ↦ inl (no_admin_header app path "POST" e)
  | inl e ↦ elim (Bool-cases (is_empty (trim app.admin_api_key))) [
    | inl unset ↦ inl (admin_header app path "POST" ∙ rw unset refl)
    | inr set ↦
        inr (admin_header app path "POST" ∙ rw (set, e) refl, requires_admin_key_header-post path e)
  ]
]

-- Each call sends one request. Those of `get`, `put` and `del` never carry the admin key; one of `post`
-- carries it only to `/admin/demo-reset` or `/admin/audit-prune`, with or without a query.
pub calls-KeyFor :
    (js : Runtime) (app : App) (path : String) (body : Option Json)
    → SendsOne app (get js path app).1 (λ h. header "x-admin-key" h ≡ none)
      × SendsOne app (put js path body app).1 (λ h. header "x-admin-key" h ≡ none)
      × SendsOne app (del js path app).1 (λ h. header "x-admin-key" h ≡ none)
      × SendsOne app (post js path body app).1 (KeyFor app path)
unfolding get put del post requires_admin_key_header upper_is
calls-KeyFor js app path body = (
  request-SendsOne js path "GET" none app _ (no_admin_header app path "GET" refl),
  request-SendsOne js path "PUT" body app _ (no_admin_header app path "PUT" refl),
  request-SendsOne js path "DELETE" none app _ (no_admin_header app path "DELETE" refl),
  request-SendsOne js path "POST" body app (KeyFor app path) (post-KeyFor app path),
)
