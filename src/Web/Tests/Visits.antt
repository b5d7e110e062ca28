-- ===== src/Web/Tests/Visits.antt =====
-- The routes, the administration, the debounced field, the theme and the dates at concrete states.
use remodelator.Base.{
  not, ℕ, ◌≡◌, refl, ◌⊎◌, arith, String, false, ◌&&◌, Option, none, some, List, [], ◌∷◌,
  if◌then◌else◌,
}
use remodelator.Base.Text.{text_eq, text_eq_refl}
use remodelator.Web.Admin.{AdminPage, has_admin_api_key, press_reset}
use remodelator.Web.Admin.Laws.{SendsKey, press_reset-SendsKey}
use remodelator.Web.Api.Calls.{Call, demo_reset}
use remodelator.Web.Debounce.{mount, wait, typing}
use remodelator.Web.Debounce.Laws.{typing_settles, typing_holds}
use remodelator.Web.Format.{Elapsed, ago, format_date, format_relative_time}
use remodelator.Web.Format.Laws.{Shown, format_relative_time-bounds}
use remodelator.Web.Routes.{route_of, follow, admin_dashboard_page, dashboard_page}
use remodelator.Web.Routes.Access.{changes, sign_in, sign_out, call, admin_key}
use remodelator.Web.Routes.Laws.{IsRouter, changes-permitted, follow-permitted}
use remodelator.Web.Tests.{boss, ann, plain}
use remodelator.Web.Tests.Calls.{encodes}
use remodelator.Web.Tests.Page.{numbers, digits}
use remodelator.Web.Theme.{Browser, light, dark, set_theme, start}
use remodelator.Web.Theme.Laws.{Shows, set_theme-Shows}

abbrev segments : String → List String
segments s = if text_eq s "/" then [] else if text_eq s "/login" then "login" ∷ [] else "other" ∷ []

plain-IsRouter : IsRouter text_eq segments
plain-IsRouter = record { root = refl; login = refl; same = text_eq_refl }

follow-permitted_example : follow text_eq segments boss 3 ("admin" ∷ []) ≡ some admin_dashboard_page
unfolding route_of
follow-permitted_example = follow-permitted text_eq segments boss plain-IsRouter 0 ("admin" ∷ [])

changes-permitted_example :
    follow text_eq segments
      (changes plain encodes
        (sign_out ∷ sign_in ann ∷ admin_key "k" ∷ call (Call.admin demo_reset) ∷ [])
        boss)
      3
      ("admin" ∷ [])
    ≡ some dashboard_page
unfolding route_of
changes-permitted_example =
    changes-permitted plain encodes text_eq segments
      (sign_out ∷ sign_in ann ∷ admin_key "k" ∷ call (Call.admin demo_reset) ∷ []) boss
      ("admin" ∷ []) plain-IsRouter

abbrev confirmed : AdminPage
confirmed = record {
  reset_confirm = "RESET";
  prune_retention = "30";
  resetting = false;
  pruning = false;
  all_stale = false;
  effects = [];
}

press_reset-SendsKey_example :
    (((text_eq "RESET" "RESET" && has_admin_api_key boss && not confirmed.resetting) ≡ false)
      × (press_reset plain encodes numbers digits confirmed boss ≡ (confirmed, boss)))
    ⊎ ((confirmed.reset_confirm ≡ "RESET")
        × (confirmed.resetting ≡ false)
        × SendsKey boss (press_reset plain encodes numbers digits confirmed boss).1)
press_reset-SendsKey_example = press_reset-SendsKey plain encodes numbers digits confirmed boss

-- two letters, a tenth of a second apart
abbrev typed : List (String × ℕ)
typed = ("b", 100) ∷ ("ba", 100) ∷ []

typing_settles_example :
    wait 300 (typing 300 typed (mount 300 ""))
    ≡ record { value = "ba"; debounced = "ba"; timer = none }
unfolding mount typing wait
typing_settles_example = typing_settles 300 299 "" typed (omega arith)

typing_holds_example : (typing 300 typed (mount 300 "")).debounced ≡ ""
unfolding mount
typing_holds_example = typing_holds 300 typed (mount 300 "") refl

abbrev browser : Browser
browser = record {
  stored = some "sepia";
  dark_class = false;
  color_scheme = "light";
  toaster_theme = light;
  settings_theme = light;
}

set_theme-Shows_example :
    Shows dark (set_theme dark browser) × Shows dark (start (set_theme dark browser))
set_theme-Shows_example = set_theme-Shows dark browser

abbrev intl : String → Option String
intl s = some s

-- two hours and one second ago
abbrev elapsed : String → Elapsed
elapsed s = ago 7201000

format_relative_time-bounds_example :
    Shown 7201000 (some (format_relative_time intl elapsed (some "2026-01-02")))
    ⊎ (Shown 7201000 none
        × (format_relative_time intl elapsed (some "2026-01-02")
            ≡ format_date intl (some "2026-01-02")))
format_relative_time-bounds_example =
    format_relative_time-bounds intl elapsed "2026-01-02" 7201000 refl refl
