-- ===== src/Legacy/Monad/Actions.antt =====
-- An async function: it changes the world and ends by returning, by throwing, or at an `await` whose
-- reply does not come. `off_contract` stands for a successful reply of another type than the caller
-- casts it to.
use remodelator.Base.{String}
use remodelator.Legacy.Monad.Store.{World}
use remodelator.Legacy.State.{
  AuthState, LlmState, CatalogState, OutputState, CoreState, WorkspaceForms, ProfileState,
}

pub data Outcome (A : Type 0) : Type 0 where
  ok : A → Outcome A
  raised : String → Outcome A
  waiting : Outcome A
  off_contract : Outcome A

abbrev pub ⊤ : Type 0
⊤ = Unit

abbrev pub M : Type 0 → Type 0
M A = World → Outcome A × World

unfoldable pub pure : {A : Type 0} → A → M A
pure a w = (ok a, w)

unfoldable pub done : M ⊤
done w = (ok tt, w)

unfoldable pub throw : {A : Type 0} → String → M A
throw m w = (raised m, w)

-- what follows an outcome
abbrev pub continue : {A B : Type 0} → (A → M B) → Outcome A × World → Outcome B × World
continue f (ok a, w) = f a w
continue f (raised m, w) = (raised m, w)
continue f (waiting, w) = (waiting, w)
continue f (off_contract, w) = (off_contract, w)

infixl 5 ◌>>=◌ ◌>>◌
unfoldable pub ◌>>=◌ : {A B : Type 0} → M A → (A → M B) → M B
◌>>=◌ m f w = continue f (m w)

unfoldable pub ◌>>◌ : {B : Type 0} → M ⊤ → M B → M B
◌>>◌ m k w = continue (λ _. k) (m w)

-- the `catch` clause, on what the `try` block came to
abbrev pub catching : (String → M ⊤) → Outcome ⊤ × World → Outcome ⊤ × World
catching handler (ok a, w) = (ok a, w)
catching handler (raised m, w) = handler m w
catching handler (waiting, w) = (waiting, w)
catching handler (off_contract, w) = (off_contract, w)

unfoldable pub try_catch : M ⊤ → (String → M ⊤) → M ⊤
try_catch m handler w = catching handler (m w)

-- the outcome of `Promise.all([a, b])` from those of its parts
abbrev pub join : Outcome ⊤ → Outcome ⊤ → Outcome ⊤
join (ok _) r = r
join (raised m) r = raised m
join waiting (ok _) = waiting
join waiting (raised m) = raised m
join waiting waiting = waiting
join waiting off_contract = waiting
join off_contract r = off_contract

abbrev pub join_with : (World → Outcome ⊤ × World) → Outcome ⊤ × World → Outcome ⊤ × World
join_with b (r, w) = let (r', w') = b w in (join r r', w')

-- `Promise.all([a, b])`, with the parts settling in order: `b` runs whatever becomes of `a`.
unfoldable pub both : M ⊤ → M ⊤ → M ⊤
both a b w = join_with b (a w)

-- `Promise.all([a, b])` for its two results
abbrev pub join_results : {A B : Type 0} → Outcome A → Outcome B → Outcome (A × B)
join_results (ok a) (ok b) = ok (a, b)
join_results (ok a) (raised m) = raised m
join_results (ok a) waiting = waiting
join_results (ok a) off_contract = off_contract
join_results (raised m) r = raised m
join_results waiting (ok b) = waiting
join_results waiting (raised m) = raised m
join_results waiting waiting = waiting
join_results waiting off_contract = waiting
join_results off_contract r = off_contract

abbrev pub join_results_with :
    {A B : Type 0} → (World → Outcome B × World) → Outcome A × World → Outcome (A × B) × World
join_results_with b (r, w) = let (r', w') = b w in (join_results r r', w')

unfoldable pub pair : {A B : Type 0} → M A → M B → M (A × B)
pair a b w = join_results_with b (a w)

unfoldable pub set_auth : (AuthState → AuthState) → M ⊤
set_auth f w = (ok tt, record w { auth = f w.auth })

unfoldable pub set_profile : (ProfileState → ProfileState) → M ⊤
set_profile f w = (ok tt, record w { profile = f w.profile })

unfoldable pub set_forms : (WorkspaceForms → WorkspaceForms) → M ⊤
set_forms f w = (ok tt, record w { forms = f w.forms })

unfoldable pub set_llm : (LlmState → LlmState) → M ⊤
set_llm f w = (ok tt, record w { llm = f w.llm })

unfoldable pub set_catalog : (CatalogState → CatalogState) → M ⊤
set_catalog f w = (ok tt, record w { catalog = f w.catalog })

unfoldable pub set_output : (OutputState → OutputState) → M ⊤
set_output f w = (ok tt, record w { output = f w.output })

unfoldable pub set_core : (CoreState → CoreState) → M ⊤
set_core f w = (ok tt, record w { core = f w.core })

-- opened to run a handler
unfoldable pub machine : ⊤
unfolding pure done throw ◌>>=◌ ◌>>◌ both pair try_catch set_auth set_profile set_forms set_llm
    set_catalog set_output set_core
machine = tt
