-- ===== src/Legacy/Keeps/Rules.antt =====
-- The rules of `Keeps`.
use remodelator.Base.{
  String, Bool, true, false, Option, none, some, List, [], ◌∷◌, ◌++◌, All, arith, if◌then◌else◌,
  length-take_le,
}
use remodelator.Legacy.Api.{api_request, request_headers}
use remodelator.Legacy.Api.Frame.{api_request-state}
use remodelator.Legacy.Guards.{when_session}
use remodelator.Legacy.Keeps.{Fine, Keeps}
use remodelator.Legacy.Monad.{
  World, Outcome, ok, raised, waiting, off_contract, M, ⊤, Request, Payload, Body, Headers, Method,
  pure, done, throw, continue, ◌>>=◌, ◌>>◌, both, pair, try_catch, catching, set_auth, set_profile,
  set_forms, set_llm, set_catalog, set_output, set_core,
}
use remodelator.Legacy.Reset.{clear_workspace, reset_profile}
use remodelator.Legacy.Runner.{push_log, clear_logs, run, started, finish, stamped}
use remodelator.Legacy.Session.{persist_session, persist_admin_key}
use remodelator.Legacy.State.{
  AuthState, LlmState, CatalogState, OutputState, CoreState, WorkspaceForms, ProfileState,
}
use remodelator.Legacy.Types.{Session}

All-append {ℓ κ} :
    {A : Type ℓ} (P : A → Type κ) (xs ys : List A) → All P xs → All P ys → All P (xs ++ ys)
All-append P [] ys h k = k
All-append P (x ∷ xs) ys h k = (h.0, All-append P xs ys h.1 k)

module _ {A : Type 0} {Q : Request → Type 0} where
  pub Keeps-pure : (a : A) → Keeps Q (pure a)
  unfolding pure
  Keeps-pure a = record { at = λ w h. h }

  pub Keeps-throw : (message : String) → Keeps Q (throw {A = A} message)
  unfolding throw
  Keeps-throw message = record { at = λ w h. h }

  pub Keeps-if : (b : Bool) {m n : M A} → Keeps Q m → Keeps Q n → Keeps Q (if b then m else n)
  Keeps-if true km kn = km
  Keeps-if false km kn = kn

  pub Keeps-api_request :
      (path : String) (verb : Method) (body : Option Body) (extra : Headers)
      (read : Payload → Option A)
      → Q (record { path = path; verb = verb; body = body; headers = request_headers extra })
      → Keeps Q (api_request path verb body extra read)
  Keeps-api_request path verb body extra read q = record {
    at = λ w h.
        rw (api_request-state path verb body extra read w)
          record { requests = All-append Q w.sent _ h.requests (q, tt); log = h.log };
  }

module _ {A B : Type 0} {Q : Request → Type 0} where
  Keeps-continue :
      (f : A → M B) (kf : (a : A) → Keeps Q (f a)) (r : Outcome A) (w : World)
      → Fine Q w
      → Fine Q (continue f (r, w)).1
  Keeps-continue f kf (ok a) w h = (kf a).at w h
  Keeps-continue f kf (raised message) w h = h
  Keeps-continue f kf waiting w h = h
  Keeps-continue f kf off_contract w h = h

  pub Keeps-bind :
      {m : M A} {f : A → M B} → Keeps Q m → ((a : A) → Keeps Q (f a)) → Keeps Q (m >>= f)
  unfolding ◌>>=◌
  Keeps-bind {m} {f} km kf = record { at = λ w h. Keeps-continue f kf (m w).0 (m w).1 (km.at w h) }

  pub Keeps-pair : {m : M A} {n : M B} → Keeps Q m → Keeps Q n → Keeps Q (pair m n)
  unfolding pair
  Keeps-pair {m} {n} km kn = record { at = λ w h. kn.at (m w).1 (km.at w h) }

module _ {Q : Request → Type 0} where
  Keeps-finish :
      (label : String) (r : Outcome ⊤) (w : World) → Fine Q w → Fine Q (finish label (r, w)).1
  unfolding finish
  Keeps-finish label (ok _) w h = record {
    requests = h.requests;
    log = length-take_le 100 ("" ∷ w.runner.log_lines);
  }
  Keeps-finish label (raised message) w h = record {
    requests = h.requests;
    log = length-take_le 100 ("" ∷ w.runner.log_lines);
  }
  Keeps-finish label waiting w h = h
  Keeps-finish label off_contract w h = h

  pub Keeps-then : {B : Type 0} {m : M ⊤} {n : M B} → Keeps Q m → Keeps Q n → Keeps Q (m >> n)
  unfolding ◌>>◌
  Keeps-then {m} {n} km kn = record {
    at = λ w h. Keeps-continue (λ _. n) (λ _. kn) (m w).0 (m w).1 (km.at w h);
  }

  pub Keeps-both : {m n : M ⊤} → Keeps Q m → Keeps Q n → Keeps Q (both m n)
  unfolding both
  Keeps-both {m} {n} km kn = record { at = λ w h. kn.at (m w).1 (km.at w h) }

  Keeps-catching :
      (f : String → M ⊤) (kf : (message : String) → Keeps Q (f message)) (r : Outcome ⊤) (w : World)
      → Fine Q w
      → Fine Q (catching f (r, w)).1
  Keeps-catching f kf (ok a) w h = h
  Keeps-catching f kf (raised message) w h = (kf message).at w h
  Keeps-catching f kf waiting w h = h
  Keeps-catching f kf off_contract w h = h

  pub Keeps-try_catch :
      {m : M ⊤} {f : String → M ⊤}
      → Keeps Q m
      → ((message : String) → Keeps Q (f message))
      → Keeps Q (try_catch m f)
  unfolding try_catch
  Keeps-try_catch {m} {f} km kf = record {
    at = λ w h. Keeps-catching f kf (m w).0 (m w).1 (km.at w h);
  }

  pub Keeps-done : Keeps Q done
  unfolding done
  Keeps-done = record { at = λ w h. h }

  pub Keeps-set_auth : (f : AuthState → AuthState) → Keeps Q (set_auth f)
  unfolding set_auth
  Keeps-set_auth f = record { at = λ w h. record { requests = h.requests; log = h.log } }

  pub Keeps-set_profile : (f : ProfileState → ProfileState) → Keeps Q (set_profile f)
  unfolding set_profile
  Keeps-set_profile f = record { at = λ w h. record { requests = h.requests; log = h.log } }

  pub Keeps-set_forms : (f : WorkspaceForms → WorkspaceForms) → Keeps Q (set_forms f)
  unfolding set_forms
  Keeps-set_forms f = record { at = λ w h. record { requests = h.requests; log = h.log } }

  pub Keeps-set_llm : (f : LlmState → LlmState) → Keeps Q (set_llm f)
  unfolding set_llm
  Keeps-set_llm f = record { at = λ w h. record { requests = h.requests; log = h.log } }

  pub Keeps-set_catalog : (f : CatalogState → CatalogState) → Keeps Q (set_catalog f)
  unfolding set_catalog
  Keeps-set_catalog f = record { at = λ w h. record { requests = h.requests; log = h.log } }

  pub Keeps-set_output : (f : OutputState → OutputState) → Keeps Q (set_output f)
  unfolding set_output
  Keeps-set_output f = record { at = λ w h. record { requests = h.requests; log = h.log } }

  pub Keeps-set_core : (f : CoreState → CoreState) → Keeps Q (set_core f)
  unfolding set_core
  Keeps-set_core f = record { at = λ w h. record { requests = h.requests; log = h.log } }

  pub Keeps-clear_workspace : Keeps Q clear_workspace
  unfolding clear_workspace
  Keeps-clear_workspace = record { at = λ w h. record { requests = h.requests; log = h.log } }

  pub Keeps-reset_profile : Keeps Q reset_profile
  unfolding reset_profile
  Keeps-reset_profile = record { at = λ w h. record { requests = h.requests; log = h.log } }

  pub Keeps-persist_session : (next : Option Session) → Keeps Q (persist_session next)
  unfolding persist_session
  Keeps-persist_session next = record { at = λ w h. record { requests = h.requests; log = h.log } }

  pub Keeps-persist_admin_key : (o : World) → Keeps Q (persist_admin_key o)
  unfolding persist_admin_key
  Keeps-persist_admin_key o = record { at = λ w h. record { requests = h.requests; log = h.log } }

  pub Keeps-push_log : (message : String) → Keeps Q (push_log message)
  unfolding push_log
  Keeps-push_log message = record {
    at = λ w h. record {
      requests = h.requests;
      log = length-take_le 100 (stamped w message ∷ w.runner.log_lines);
    };
  }

  pub Keeps-clear_logs : Keeps Q clear_logs
  unfolding clear_logs
  Keeps-clear_logs = record { at = λ w h. record { requests = h.requests; log = omega arith } }

  pub Keeps-run : (label : String) {m : M ⊤} → Keeps Q m → Keeps Q (run label m)
  unfolding run
  Keeps-run label {m} km = record {
    at = λ w h.
        let (r, w') = m (started label w) in
        Keeps-finish label r w' (km.at _ record { requests = h.requests; log = h.log });
  }

  pub Keeps-when_session :
      (s : Option Session) {m n : M ⊤} → Keeps Q m → Keeps Q n → Keeps Q (when_session s m n)
  unfolding when_session
  Keeps-when_session none km kn = km
  Keeps-when_session (some _) km kn = kn

pub ruleset keeps_rules = (
  Keeps-pure, Keeps-throw, Keeps-if, Keeps-bind, Keeps-pair, Keeps-then, Keeps-both,
  Keeps-try_catch, Keeps-done, Keeps-set_auth, Keeps-set_profile, Keeps-set_forms, Keeps-set_llm,
  Keeps-set_catalog, Keeps-set_output, Keeps-set_core, Keeps-clear_workspace, Keeps-reset_profile,
  Keeps-persist_session, Keeps-push_log, Keeps-clear_logs, Keeps-run, Keeps-when_session,
)
