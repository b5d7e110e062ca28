-- ===== src/Web/Admin/Laws.antt =====
-- AdminDashboardPage.tsx: what the destructive buttons send.
use remodelator.Base.{
  ◌≡◌, refl, ◌∙◌, ◌⊎◌, inl, inr, String, Bool, true, false, not, ◌&&◌, some, arith, Bool-cases,
}
use remodelator.Base.Compare.{text_eq-true}
use remodelator.Base.Text.{text_eq, is_empty, trim}
use remodelator.Web.Admin.{
  AdminPage, has_admin_api_key, is_reset_disabled, is_prune_disabled, press_reset, press_prune,
  sent_retention,
}
use remodelator.Web.Api.Calls.{Call, demo_reset, prune_audit}
use remodelator.Web.Api.Laws.{Carries, perform-Carries, set_text}
use remodelator.Web.Api.Send.{Encoding, perform}
use remodelator.Web.App.{App, Runtime}
use remodelator.Web.Builtins.{Builtins}
use remodelator.Web.Client.Laws.{header, SendsOne}

-- one request is sent, with the trimmed admin key that is set
abbrev pub SendsKey : App → App → Type 0
SendsKey before after =
    (is_empty (trim before.admin_api_key) ≡ false)
    × SendsOne before after (λ h. header "x-admin-key" h ≡ some (trim before.admin_api_key))

set_key : (key : String) → is_empty key ≡ false → set_text key ≡ some key
set_key key e = rw e refl

has_key-set : (app : App) → has_admin_api_key app ≡ true → is_empty (trim app.admin_api_key) ≡ false
unfolding has_admin_api_key
has_key-set app e = ground arith

module _ {N : Type 0} (js : Runtime) (web : Encoding) (num : Builtins N) (parse_int : String → N)
    (s : AdminPage) (app : App) where
  carried :
      (after : App)
      → SendsOne app after (Carries app true)
      → has_admin_api_key app ≡ true
      → SendsKey app after
  carried after (r, sent, carries) key =
      let set = has_key-set app key in
      (set, (r, sent, carries.1 ∙ set_key (trim app.admin_api_key) set))

  -- "Reset Demo" does nothing unless RESET is typed, an admin key is set and no reset runs; then it sends one
  -- request, which carries that key.
  pub press_reset-SendsKey :
      (((text_eq s.reset_confirm "RESET" && has_admin_api_key app && not s.resetting) ≡ false)
        × (press_reset js web num parse_int s app ≡ (s, app)))
      ⊎ ((s.reset_confirm ≡ "RESET")
          × (s.resetting ≡ false)
          × SendsKey app (press_reset js web num parse_int s app).1)
  unfolding press_reset is_reset_disabled
  press_reset-SendsKey = elim (Bool-cases (text_eq s.reset_confirm "RESET")) [
    | inr e ↦ inl (rw e refl, rw e refl)
    | inl e ↦ elim (Bool-cases (has_admin_api_key app)) [
      | inr f ↦ inl (rw (e, f) refl, simp (e, f) (ground arith))
      | inl f ↦ elim (Bool-cases s.resetting) [
        | inl busy ↦ inl (simp (e, f, busy) refl, simp (e, f, busy) refl)
        | inr free ↦ inr (
          text_eq-true s.reset_confirm "RESET" e,
          free,
          simp (e, f, free)
              (carried (perform js web (Call.admin demo_reset) app).1
                (perform-Carries js web app (Call.admin demo_reset)) f),
        )
      ]
    ]
  ]

  -- "Preview" and "Prune Audit" do nothing unless an admin key is set and neither runs; then each sends one
  -- request, which carries that key.
  pub press_prune-SendsKey :
      (dry_run : Bool)
      → (((has_admin_api_key app && not s.pruning) ≡ false)
          × (press_prune js web num parse_int dry_run s app ≡ (s, app)))
        ⊎ ((s.pruning ≡ false) × SendsKey app (press_prune js web num parse_int dry_run s app).1)
  unfolding press_prune is_prune_disabled
  press_prune-SendsKey dry_run = elim (Bool-cases (has_admin_api_key app)) [
    | inr f ↦ inl (rw f refl, simp f (ground arith))
    | inl f ↦ elim (Bool-cases s.pruning) [
      | inl busy ↦ inl (simp (f, busy) refl, simp (f, busy) refl)
      | inr free ↦
          let c = Call.admin (
            prune_audit (some (sent_retention js web num parse_int s.prune_retention))
              (some dry_run)) in
          inr (
            free,
            simp (f, free) (carried (perform js web c app).1 (perform-Carries js web app c) f),
          )
    ]
  ]
