-- ===== src/Legacy/Authority.antt =====
-- Which requests a handler of archive/apps/web/src_legacy may send: those with the session's token, and
-- reads of public data.
pub mod Loads
pub mod Handlers
pub mod Commands
pub mod Effects
use Prim.Native.String.{◌++◌ as text_append}
use text.Mathlib.TextLemmas.{cons-append}
use remodelator.Base.{
  ◌≡◌, refl, ◌⊎◌, inl, inr, String, Bool, true, ◌||◌, Option, none, some, List, [], arith,
}
use remodelator.Base.Text.{text_eq, starts_with}
use remodelator.Legacy.Api.{api_request, request_headers}
use remodelator.Legacy.Guards.{auth_headers}
use remodelator.Legacy.Keeps.{Keeps}
use remodelator.Legacy.Keeps.Rules.{Keeps-api_request}
use remodelator.Legacy.Monad.{World, Request, Payload, Body, Headers, Method}

-- what anybody may read: the catalog tree and a search of it, the state of the LLM provider and the billing policy
abbrev pub is_public : String → Bool
is_public path =
    starts_with path "/catalog/search?query="
    || text_eq path "/catalog/tree"
    || text_eq path "/pricing/llm/status"
    || text_eq path "/billing/policy"

-- It carries the headers of the session of `o`, or it reads what is public, without any.
abbrev pub IsAuthorised : World → Request → Type 0
IsAuthorised o r =
    (r.headers ≡ request_headers (auth_headers o))
    ⊎ ((is_public r.path ≡ true) × (r.verb ≡ Method.get_method) × (r.headers ≡ request_headers []))

pub Keeps-IsAuthorised :
    {A : Type 0} (o : World) (path : String) (verb : Method) (body : Option Body)
    (read : Payload → Option A)
    → Keeps (IsAuthorised o) (api_request path verb body (auth_headers o) read)
Keeps-IsAuthorised o path verb body read =
    Keeps-api_request path verb body (auth_headers o) read (inl refl)

pub Keeps-public :
    {A : Type 0} (o : World) (path : String) (body : Option Body) (read : Payload → Option A)
    → is_public path ≡ true
    → Keeps (IsAuthorised o) (api_request path Method.get_method body [] read)
Keeps-public o path body read public =
    Keeps-api_request path Method.get_method body [] read (inr (public, refl, refl))

starts_with_empty : (s : String) → starts_with s "" ≡ true
starts_with_empty String.[] = refl
starts_with_empty (String.◌∷◌ c s) = refl

starts_with-append : (t s : String) → starts_with (text_append t s) t ≡ true
starts_with-append String.[] s = starts_with_empty (text_append "" s)
starts_with-append (String.◌∷◌ c t) s = rw (cons-append, starts_with-append t s) (ground arith)

pub Keeps-search :
    {A : Type 0} (o : World) (query : String) (body : Option Body) (read : Payload → Option A)
    → Keeps
        (IsAuthorised o)
        (api_request (text_append "/catalog/search?query=" query) Method.get_method body [] read)
Keeps-search o query body read =
    Keeps-public o (text_append "/catalog/search?query=" query) body read
      (rw (starts_with-append "/catalog/search?query=" query) refl)
