-- ===== src/Legacy/Actions/Auth/Laws.antt =====
-- authActions.ts, useSessionStorage.ts and workspaceReset.ts: what signing out leaves.
use remodelator.Base.{◌≡◌, refl, String, none, some, List, [], ◌∷◌, Bool-cases, inl, inr}
use remodelator.Base.Text.{text_eq}
use remodelator.Legacy.Actions.Auth.{on_logout}
use remodelator.Legacy.Monad.{World, Storage, ok, machine}
use remodelator.Legacy.Reset.{clear_workspace, reset_profile}
use remodelator.Legacy.Runner.{push_log}
use remodelator.Legacy.Session.{
  persist_session, read_storage, remove_storage, session_key, erase, lookup,
}
use remodelator.Legacy.State.{initial_forms, initial_profile}
use remodelator.Legacy.Types.{AdminResult}

-- nothing of the signed-out user's work is left in these parts of the state
pub record SignedOut (w : World) : Type 0 where
  pub session : w.session ≡ none
  pub stored : read_storage w.storage session_key ≡ none
  pub profile : w.profile ≡ initial_profile
  pub estimates : w.core.estimates ≡ []
  pub selection : w.core.selected_estimate ≡ none
  pub selected_id : w.core.selected_estimate_id ≡ none
  pub selected_line : w.core.selected_line_item_id ≡ ""
  pub ledger : w.core.billing_ledger ≡ []
  pub admin_result : w.core.admin_result ≡ AdminResult.nothing
  pub forms : w.forms ≡ initial_forms
  pub templates : w.catalog.templates ≡ []
  pub preview : w.output.proposal_preview ≡ ""
  pub billing_response : w.output.billing_response ≡ none
  pub idempotency_key : w.output.idempotency_key ≡ ""
  pub suggestion : w.llm.suggestion ≡ none

lookup-erase : (key : String) (items : List (String × String)) → lookup key (erase key items) ≡ none
lookup-erase key [] = refl
lookup-erase key ((k, v) ∷ rest) = elim (Bool-cases (text_eq k key)) [
  | inl same ↦ rw same (lookup-erase key rest)
  | inr other ↦ rw (other, other) (lookup-erase key rest)
]

read_storage-remove_storage :
    (storage : Storage) (key : String) → read_storage (remove_storage storage key) key ≡ none
unfolding read_storage remove_storage
read_storage-remove_storage none key = refl
read_storage-remove_storage (some items) key = lookup-erase key items

-- Signing out returns, sends nothing, and leaves no session in the state or in the storage, and none of
-- the user's profile, estimates, ledger, templates, forms, preview, billing reply or suggestion.
pub on_logout-SignedOut :
    (w : World)
    → ((on_logout w).0 ≡ ok tt) × SignedOut (on_logout w).1 × ((on_logout w).1.sent ≡ w.sent)
unfolding on_logout persist_session clear_workspace reset_profile push_log machine
on_logout-SignedOut w = (
  refl,
  record {
    session = refl;
    stored = read_storage-remove_storage w.storage session_key;
    profile = refl;
    estimates = refl;
    selection = refl;
    selected_id = refl;
    selected_line = refl;
    ledger = refl;
    admin_result = refl;
    forms = refl;
    templates = refl;
    preview = refl;
    billing_response = refl;
    idempotency_key = refl;
    suggestion = refl;
  },
  refl,
)
