-- ===== src/Web/Pages/Dashboard.antt =====
-- apps/web/src/features/dashboard/DashboardPage.tsx: what it counts and lists of the estimates.
use remodelator.Base.{ℕ, Bool, ◌||◌, List, filter, length, take}
use remodelator.Base.Text.{text_eq}
use remodelator.Web.Estimate.Types.{Estimate}

unfoldable pub recent_estimates : List Estimate → List Estimate
recent_estimates estimates = take 5 estimates

abbrev is_active : Estimate → Bool
is_active e = text_eq e.status "in_progress" || text_eq e.status "draft"

unfoldable pub active_count : List Estimate → ℕ
active_count estimates = length (filter is_active estimates)

abbrev is_completed : Estimate → Bool
is_completed e = text_eq e.status "completed"

unfoldable pub completed_count : List Estimate → ℕ
completed_count estimates = length (filter is_completed estimates)
