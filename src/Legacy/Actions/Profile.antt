-- ===== src/Legacy/Actions/Profile.antt =====
-- archive/apps/web/src_legacy/lib/profileActions.ts
use Prim.Native.Char.{code}
use Prim.Native.String.{◌++◌ as text_append}
use remodelator.Base.{
  ℕ, suc, ◌+◌, String, Option, none, some, List, [], ◌∷◌, ◌++◌, ◌||◌, ◌==◌, if◌then◌else◌,
  get_or_else, length,
}
use remodelator.Base.Text.{decimal}
use remodelator.Legacy.Actions.Common.{decimal_or_zero}
use remodelator.Legacy.Api.{api_request}
use remodelator.Legacy.Api.Read.{as_profile, as_backup, as_restored}
use remodelator.Legacy.Guards.{run_with_session}
use remodelator.Legacy.Loaders.{load_profile, load_activity_and_audit, refresh_estimate_views}
use remodelator.Legacy.Monad.{
  World, ok, M, ⊤, ◌>>=◌, ◌>>◌, both, Method, Value, Body, Headers, set_profile,
}
use remodelator.Legacy.Runner.{push_log}
use remodelator.Legacy.Types.{Estimate, BackupPayload, RestoreBackupResult}

-- `estimates.reduce((total, e) => total + (e.line_items?.length ?? 0), 0)`
line_count_from : ℕ → List Estimate → ℕ
line_count_from total [] = total
line_count_from total (e ∷ rest) =
    line_count_from (total + length (get_or_else e.line_items [])) rest

export_message : BackupPayload → String
unfolding line_count_from
export_message payload = text_append "Snapshot exported (" (
    text_append (decimal (length payload.estimates)) (
      text_append " estimates, "
        (text_append (decimal (line_count_from 0 payload.estimates)) " line items).")))

restore_message : RestoreBackupResult → String
restore_message r = text_append "Snapshot restored (" (
    text_append (decimal r.estimates_restored)
      (text_append " estimates, " (text_append (decimal r.line_items_restored) " line items).")))

-- `s.replace(/[:.]/g, "-")`
dashed : String → String
dashed String.[] = String.[]
dashed (String.◌∷◌ c s) =
    text_append (if code c == b':' || code c == b'.' then "-" else String.◌∷◌ c String.[])
      (dashed s)

-- the `<a download>` that is clicked: the browser saves a file under this name
unfoldable pub download : M ⊤
unfolding dashed
download w = (
  ok tt,
  record w {
    ticks = suc w.ticks;
    downloads =
        w.downloads
        ++ text_append "remodelator_snapshot_"
            (text_append (dashed (w.platform.clock w.ticks)) ".json")
          ∷ [];
  },
)

module _ (o : World) where
  unfoldable pub on_load_profile : M ⊤
  on_load_profile =
      run_with_session o "Load profile" "Profile load blocked: login required" λ _. load_profile o

  profile_body : Body
  unfolding decimal_or_zero
  profile_body =
      ("full_name", Value.text o.profile.full_name)
      ∷ ("labor_rate", Value.text (decimal_or_zero o.profile.labor_rate))
      ∷ ("item_markup_pct", Value.text (decimal_or_zero o.profile.item_markup_pct))
      ∷ ("estimate_markup_pct", Value.text (decimal_or_zero o.profile.estimate_markup_pct))
      ∷ ("tax_rate_pct", Value.text (decimal_or_zero o.profile.tax_rate_pct))
      ∷ []

  save_profile : Headers → M ⊤
  unfolding profile_body
  save_profile headers = do
    updated ← api_request "/profile" Method.put_method (some profile_body) headers as_profile
    set_profile λ p. record p {
      full_name = get_or_else updated.full_name "";
      role = get_or_else updated.role "user";
      labor_rate = updated.labor_rate;
      item_markup_pct = updated.default_item_markup_pct;
      estimate_markup_pct = updated.default_estimate_markup_pct;
      tax_rate_pct = updated.tax_rate_pct;
      status = "Profile defaults saved.";
    }

  unfoldable pub on_save_profile : M ⊤
  unfolding save_profile
  on_save_profile =
      run_with_session o "Save profile" "Profile update blocked: login required" save_profile

  unfoldable pub on_refresh_activity : M ⊤
  on_refresh_activity =
      run_with_session o "Refresh activity" "Activity refresh blocked: login required"
        λ _. load_activity_and_audit o

  export_snapshot : Headers → M ⊤
  unfolding export_message download
  export_snapshot headers = do
    payload ← api_request "/backup/export" Method.get_method none headers as_backup
    set_profile
        λ p. record p { last_snapshot = some payload; snapshot_status = export_message payload }
    download

  unfoldable pub on_export_snapshot : M ⊤
  unfolding export_snapshot
  on_export_snapshot =
      run_with_session o "Export snapshot" "Snapshot export blocked: login required" export_snapshot

  restore_snapshot : BackupPayload → Headers → M ⊤
  unfolding restore_message
  restore_snapshot snapshot headers = do
    result ←
        api_request "/backup/restore" Method.post_method
          (some (("payload", Value.snapshot snapshot) ∷ [])) headers as_restored
    set_profile (λ p. record p { snapshot_status = restore_message result })
    both (refresh_estimate_views o o.core.selected_estimate_id) (load_activity_and_audit o)

  unfoldable pub restore_given : Option BackupPayload → M ⊤
  unfolding restore_snapshot
  restore_given none = push_log "Snapshot restore blocked: export snapshot first"
  restore_given (some snapshot) =
      run_with_session o "Restore snapshot" "Snapshot restore blocked: login required"
        (restore_snapshot snapshot)

  unfoldable pub on_restore_snapshot : M ⊤
  unfolding restore_given
  on_restore_snapshot = restore_given o.profile.last_snapshot
