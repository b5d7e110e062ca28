-- ===== src/Legacy/Monad/Store.antt =====
-- Everything a handler can read or change: the state hooks, the browser's storage, the requests sent
-- so far and the replies that are still to come.
use remodelator.Base.{ℕ, String, Bool, Option, List}
use remodelator.Base.Json.{Json}
use remodelator.Legacy.Monad.Wire.{Request, Reply}
use remodelator.Legacy.State.{
  AuthState, LlmState, CatalogState, OutputState, CoreState, RunnerState, WorkspaceForms,
  ProfileState,
}
use remodelator.Legacy.Types.{Session}

-- The browser's functions that the code calls and does not define.
pub record Platform : Type 0 where
  -- `new Date().toISOString()` at the n-th reading of the clock
  pub clock : ℕ → String
  pub encode_uri_component : String → String
  -- `new URLSearchParams(...).toString()`
  pub encode_params : List (String × String) → String
  -- `none` where `JSON.parse` throws
  pub parse_json : String → Option Json
  pub stringify : Json → String
  -- `a.localeCompare(b) <= 0`
  pub collates : String → String → Bool

-- `none` stands for a `localStorage` that is missing or throws.
abbrev pub Storage : Type 0
Storage = Option (List (String × String))

pub record World : Type 0 where
  pub session : Option Session
  pub admin_key : String
  pub auth : AuthState
  pub profile : ProfileState
  pub forms : WorkspaceForms
  pub llm : LlmState
  pub catalog : CatalogState
  pub output : OutputState
  pub core : CoreState
  pub runner : RunnerState
  pub storage : Storage
  pub downloads : List String
  pub sent : List Request
  pub replies : List Reply
  pub ticks : ℕ
  pub platform : Platform
