-- ===== src/Web/Estimate/Page/Leave.antt =====
-- EstimateDetailPage.tsx: when the page drops its estimate and goes to the list.
use remodelator.Base.{
  ◌≡◌, refl, ◌⊎◌, String, Bool, true, false, ◌||◌, List, any, arith, Bool-cases, inl, inr,
}
use remodelator.Web.Builtins.{Builtins}
use remodelator.Web.Estimate.Page.Events.{Event, run}
use remodelator.Web.Estimate.Page.State.{opened}
use remodelator.Web.Estimate.Types.{Estimate}
use remodelator.Web.Query.{Effect}
use remodelator.Web.Estimate.Page.Asked.{page-Asked}
use remodelator.Web.Estimate.Page.Removal.{leaves, deletes, never}

-- the estimate's query is dropped
abbrev pub drops : Effect → Bool
drops (Effect.remove key) = true
drops _ = false

-- the link to the list is followed
abbrev pub is_back : Event → Bool
is_back Event.back_link = true
is_back _ = false

or_cases : (d b : Bool) → (d || b) ≡ true → (d ≡ true) ⊎ (b ≡ true)
or_cases true b h = inl refl
or_cases false b h = inr h

or_false : (d b : Bool) → b ≡ false → (d || b) ≡ true → d ≡ true
or_false d b no_b h = ground arith

drops-leaves : (e : Effect) → drops e ≡ true → leaves e ≡ true
drops-leaves (Effect.remove key) h = refl
drops-leaves _ h = cc

-- Whenever the page has dropped its estimate from the cache or has gone to the list of estimates, it has
-- sent the request that deletes this estimate; or the link to the list was followed, and the estimate is
-- not dropped.
pub run-asked :
    (id : String) {N : Type 0} (num : Builtins N) (estimate : Estimate) (es : List Event)
    → any leaves (run id num es (opened estimate)).effects ≡ true
    → (any (deletes id) (run id num es (opened estimate)).calls ≡ true)
      ⊎ ((any is_back es ≡ true) × (any drops (run id num es (opened estimate)).effects ≡ false))
run-asked id num estimate es h =
    elim (Bool-cases (any drops (run id num es (opened estimate)).effects)) [
      | inl dropped ↦ inl (
          or_false _ _ (never es)
            (page-Asked id num drops (λ e. false) drops-leaves (λ e. cc) estimate es dropped))
      | inr kept ↦
          elim (or_cases _ _
            (page-Asked id num leaves is_back (λ e l. l) (λ e. refl) estimate es h)) [
              | inl asked ↦ inl asked
              | inr linked ↦ inr (linked, kept)
            ]
    ]
