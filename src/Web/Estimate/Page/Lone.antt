-- ===== src/Web/Estimate/Page/Lone.antt =====
-- EstimateDetailPage.tsx: mutations whose button is disabled while they run.
use remodelator.Base.{
  ℕ, zero, suc, ◌+◌, ◌≤◌, ◌≡◌, refl, ◌∙◌, String, Bool, true, false, not, ◌&&◌, ◌||◌, List, [], ◌∷◌,
  ◌++◌, map, arith, Bool-cases, inl, inr, if◌then◌else◌,
}
use remodelator.Web.Builtins.{Builtins}
use remodelator.Web.Estimate.Page.Events.{Event, run}
use remodelator.Web.Estimate.Page.Mutations.{overlook, drop_at}
use remodelator.Web.Estimate.Page.Queue.{
  Queue, Step, Steps, idle, start, refuse, show_proposal, back, finish, here, next, is_lone,
  pending_in, may_start,
}
use remodelator.Web.Estimate.Page.Refine.{run-Steps}
use remodelator.Web.Estimate.Page.State.{Command, Running, Kind, kind_of, kind_eq, runs, opened}
use remodelator.Web.Estimate.Types.{Estimate}

-- how many commands of a mutation run
abbrev pub count_runs : Kind → List Running → ℕ
count_runs kind [] = 0
count_runs kind (r ∷ rest) =
    if runs kind r then suc (count_runs kind rest) else count_runs kind rest

-- all of them are observed
abbrev pub all_observed : Kind → List Running → Bool
all_observed kind [] = true
all_observed kind (r ∷ rest) = (not (runs kind r) || r.observed) && all_observed kind rest

abbrev pub Alone : Kind → List Running → Type 0
Alone kind l = (count_runs kind l ≤ 1) × (all_observed kind l ≡ true)

kind_eq_refl : (k : Kind) → kind_eq k k ≡ true
kind_eq_refl Kind.update_mutation = refl
kind_eq_refl _ = refl

-- the entries of one mutation are overlooked for that mutation alone
kind_eq-step : (k c d : Kind) → kind_eq c d ≡ true → kind_eq k d ≡ kind_eq k c
kind_eq-step k Kind.update_mutation Kind.update_mutation e = refl
kind_eq-step k c d e = ground arith

runs-overlook : (k c : Kind) (r : Running) → runs k (overlook c r) ≡ runs k r
runs-overlook k c r = elim (Bool-cases (runs c r)) [ inl e ↦ rw e refl | inr e ↦ rw e refl ]

observed-overlook :
    (k c : Kind) (r : Running)
    → kind_eq k c ≡ false
    → (not (runs k (overlook c r)) || (overlook c r).observed) ≡ (not (runs k r) || r.observed)
observed-overlook k c r other = elim (Bool-cases (runs c r)) [
  | inr e ↦ rw e refl
  | inl e ↦ rw e (rw (kind_eq-step k c (kind_of r.command) e, other) refl)
]

count_runs-overlook :
    (k c : Kind) (l : List Running) → count_runs k (map (overlook c) l) ≡ count_runs k l
count_runs-overlook k c [] = refl
count_runs-overlook k c (r ∷ l) = rw (runs-overlook k c r, count_runs-overlook k c l) refl

all_observed-overlook :
    (k c : Kind) (l : List Running)
    → kind_eq k c ≡ false
    → all_observed k (map (overlook c) l) ≡ all_observed k l
all_observed-overlook k c [] other = refl
all_observed-overlook k c (r ∷ l) other =
    rw (observed-overlook k c r other, all_observed-overlook k c l other) refl

all_observed-none : (k : Kind) (l : List Running) → count_runs k l ≡ 0 → all_observed k l ≡ true
all_observed-none k [] h = refl
all_observed-none k (r ∷ l) h = ground (arith, all_observed-none k l)

-- if none is pending and all are observed, none runs
count_runs-none :
    (k : Kind) (l : List Running)
    → all_observed k l ≡ true
    → pending_in k l ≡ false
    → count_runs k l ≡ 0
count_runs-none k [] seen quiet = refl
count_runs-none k (r ∷ l) seen quiet = ground (arith, count_runs-none k l)

count_runs-last :
    (k : Kind) (l : List Running) (r : Running)
    → count_runs k (l ++ r ∷ []) ≡ count_runs k l + (if runs k r then 1 else 0)
count_runs-last k [] r = ground arith
count_runs-last k (s ∷ l) r = ground (arith, count_runs-last k l r)

all_observed-last :
    (k : Kind) (l : List Running) (r : Running)
    → r.observed ≡ true
    → all_observed k (l ++ r ∷ []) ≡ all_observed k l
all_observed-last k [] r e = ground arith
all_observed-last k (s ∷ l) r e = ground (arith, all_observed-last k l r)

count_runs-drop_at :
    (k : Kind) (l : List Running) (i : ℕ) → count_runs k (drop_at l i) ≤ count_runs k l
count_runs-drop_at k [] i = omega arith
count_runs-drop_at k (r ∷ l) zero = ground arith
count_runs-drop_at k (r ∷ l) (suc i) = ground (arith, count_runs-drop_at k l i)

all_observed-drop_at :
    (k : Kind) (l : List Running) (i : ℕ)
    → all_observed k l ≡ true
    → all_observed k (drop_at l i) ≡ true
all_observed-drop_at k [] i h = refl
all_observed-drop_at k (r ∷ l) zero h = ground arith
all_observed-drop_at k (r ∷ l) (suc i) h = ground (arith, all_observed-drop_at k l i)

kind_eq-eq : (k c : Kind) → kind_eq k c ≡ true → k ≡ c
kind_eq-eq Kind.update_mutation c e = ground arith
kind_eq-eq k c e = ground arith

quiet_of :
    (k : Kind) (c : Command) (l : List Running)
    → is_lone k ≡ true
    → may_start c l ≡ true
    → kind_eq k (kind_of c) ≡ true
    → pending_in k l ≡ false
quiet_of k c l lone may same =
    let e = kind_eq-eq k (kind_of c) same in
    let lone' = rw e at lone in let may' = rw lone' at may in rw e (ground arith)

started-Alone :
    (k : Kind) (c : Command) (l : List Running)
    → is_lone k ≡ true
    → may_start c l ≡ true
    → Alone k l
    → Alone k (map (overlook (kind_of c)) l ++ record { command = c; observed = true } ∷ [])
started-Alone k c l lone may h = elim (Bool-cases (kind_eq k (kind_of c))) [
  | inr other ↦ (
    rw
        (
          count_runs-last k (map (overlook (kind_of c)) l)
              (record { command = c; observed = true }),
          count_runs-overlook k (kind_of c) l,
          other,
        )
        (omega (arith, h.0)),
    all_observed-last k (map (overlook (kind_of c)) l) (record { command = c; observed = true })
          refl
        ∙ all_observed-overlook k (kind_of c) l other
        ∙ h.1,
  )
  | inl same ↦
      let none_runs = count_runs-none k l h.1 (quiet_of k c l lone may same) in
      let none_left = count_runs-overlook k (kind_of c) l ∙ none_runs in
      (
        rw
            (
              count_runs-last k (map (overlook (kind_of c)) l)
                  (record { command = c; observed = true }),
              none_left,
              same,
            )
            (omega arith),
        all_observed-last k (map (overlook (kind_of c)) l) (record { command = c; observed = true })
              refl
            ∙ all_observed-none k (map (overlook (kind_of c)) l) none_left,
      )
]

Step-Alone :
    (id : String) {N : Type 0} (num : Builtins N) (k : Kind) {e : Event} {p q : Queue}
    → is_lone k ≡ true
    → Alone k p.in_flight
    → Step id num e p q
    → Alone k q.in_flight
Step-Alone id num k lone h (idle e q quiet) = h
Step-Alone id num k lone h (start e c q asked may) = started-Alone k c q.in_flight lone may h
Step-Alone id num k lone h (refuse q) = h
Step-Alone id num k lone h (show_proposal q) = h
Step-Alone id num k lone h (back q) = h
Step-Alone id num k lone h (finish i r outcome q e) = (
  omega (arith, count_runs-drop_at k q.in_flight i, h.0),
  all_observed-drop_at k q.in_flight i h.1,
)

Steps-Alone :
    (id : String) {N : Type 0} (num : Builtins N) (k : Kind) {es : List Event} {p q : Queue}
    → is_lone k ≡ true
    → Alone k p.in_flight
    → Steps id num es p q
    → Alone k q.in_flight
Steps-Alone id num k lone h (here q) = h
Steps-Alone id num k lone h (next step steps) =
    Steps-Alone id num k lone (Step-Alone id num k lone h step) steps

-- Whatever happens to the page, at most one update of the details, one added item, one removed item, one
-- removal of the estimate, one bulk move, one recalculation and one export run at a time, and the mutation
-- observes it.
pub run-Alone :
    (id : String) {N : Type 0} (num : Builtins N) (estimate : Estimate) (es : List Event) (k : Kind)
    → is_lone k ≡ true
    → Alone k (run id num es (opened estimate)).in_flight
unfolding opened
run-Alone id num estimate es k lone =
    Steps-Alone id num k lone (omega arith, refl) (run-Steps id num es (opened estimate))
