-- ===== src/Web/Estimate/Page/Rules.antt =====
-- EstimateDetailPage.tsx: the step of the promise that a guarded handler takes.
use remodelator.Base.{
  ℕ, ◌≡◌, refl, String, Bool, true, false, not, ◌&&◌, ◌||◌, Option, none, some, List,
}
use remodelator.Web.Builtins.{Builtins}
use remodelator.Web.Estimate.Page.Events.{Event}
use remodelator.Web.Estimate.Page.Handlers
use remodelator.Web.Estimate.Page.Queue.{queue_of, idle, asks, tells}
use remodelator.Web.Estimate.Page.State.{EstimatePage, reorder}
use remodelator.Web.Estimate.Types.{LineItem}
use remodelator.Web.Estimate.Page.Ends.{Moves, moves, mutate-Moves}

module _ (id : String) {N : Type 0} (num : Builtins N) where
  -- an event after which the queue may be as it was
  pub stays : (e : Event) (s : EstimatePage) → tells e s.in_flight ≡ false → Moves id num e s s
  stays e s quiet = moves (idle e (queue_of s) quiet)

  pub when-Moves :
      (e : Event) (b : Bool) (s target : EstimatePage)
      → tells e s.in_flight ≡ false
      → (b ≡ true → Moves id num e s target)
      → Moves id num e s (Handlers.when b target s)
  when-Moves e true s target quiet h = h refl
  when-Moves e false s target quiet h = stays e s quiet

  pub and-Moves :
      (e : Event) (a b : Bool) (s target : EstimatePage)
      → tells e s.in_flight ≡ false
      → (b ≡ true → Moves id num e s target)
      → Moves id num e s (Handlers.when (a && b) target s)
  and-Moves e true b s target quiet h = when-Moves e b s target quiet h
  and-Moves e false b s target quiet h = stays e s quiet

  pub nor_of-Moves :
      (e : Event) (a c : Bool) (s target : EstimatePage)
      → tells e s.in_flight ≡ false
      → (not c ≡ true → Moves id num e s target)
      → Moves id num e s (Handlers.when (not (a || c)) target s)
  nor_of-Moves e true c s target quiet h = stays e s quiet
  nor_of-Moves e false c s target quiet h = when-Moves e (not c) s target quiet h

  pub nor-Moves :
      (e : Event) (a b c : Bool) (s target : EstimatePage)
      → tells e s.in_flight ≡ false
      → (not c ≡ true → Moves id num e s target)
      → Moves id num e s (Handlers.when (not (a || b || c)) target s)
  nor-Moves e true b c s target quiet h = stays e s quiet
  nor-Moves e false b c s target quiet h = nor_of-Moves e b c s target quiet h

  pub with_group-Moves :
      (e : Event) (group : Option (String × List LineItem)) (s : EstimatePage)
      (f : List LineItem → EstimatePage)
      → tells e s.in_flight ≡ false
      → ((members : List LineItem) → Moves id num e s (f members))
      → Moves id num e s (Handlers.with_group group f s)
  with_group-Moves e none s f quiet h = stays e s quiet
  with_group-Moves e (some (name, members)) s f quiet h = h members

  pub with_row-Moves :
      (e : Event) (line : Option LineItem) (s : EstimatePage) (f : LineItem → EstimatePage)
      → tells e s.in_flight ≡ false
      → ((l : LineItem) → Moves id num e s (f l))
      → Moves id num e s (Handlers.with_line line f s)
  with_row-Moves e none s f quiet h = stays e s quiet
  with_row-Moves e (some line) s f quiet h = h line

  pub move_to-Moves :
      (e : Event) (line : Option LineItem) (index : Option ℕ) (s : EstimatePage)
      → tells e s.in_flight ≡ false
      → ((l : String) (i : ℕ) → asks e (reorder l i) s.in_flight ≡ true)
      → Moves id num e s (Handlers.move_to id line index s)
  move_to-Moves e (some line) (some index) s quiet asked =
      mutate-Moves id num e (reorder line.id index) s (asked line.id index) refl
  move_to-Moves e (some line) none s quiet asked = stays e s quiet
  move_to-Moves e none index s quiet asked = stays e s quiet

  -- a started command after which one of the page's menus is shut
  pub shut_actions :
      (e : Event) (s t : EstimatePage)
      → Moves id num e s t
      → Moves id num e s (Handlers.close_actions t)
  shut_actions e s t (moves step) = moves step

  pub shut_status :
      (e : Event) (s t : EstimatePage)
      → Moves id num e s t
      → Moves id num e s (record t { status_menu_open = false })
  shut_status e s t (moves step) = moves step
