-- ===== src/Web/Estimate/Page/Removal.antt =====
-- EstimateDetailPage.tsx: the commands and the ends that leave the estimate.
use remodelator.Base.{
  ℕ, zero, suc, ◌≡◌, refl, sym, ◌∙◌, String, Bool, true, false, ◌||◌, some, List, [], ◌∷◌, ◌++◌,
  map, any, get_elem?, arith, Bool-cases, inl, inr,
}
use remodelator.Base.Text.{text_eq, text_eq_refl}
use remodelator.Web.Api.Calls.{Estimates}
use remodelator.Web.Builtins.{Builtins}
use remodelator.Web.Estimate.Page.Mutations.{overlook, drop_at}
use remodelator.Web.Estimate.Page.Queue.{ending, end_effects, requests}
use remodelator.Web.Estimate.Page.State.{
  Command, Running, Kind, runs, update, action, delete_estimate,
}
use remodelator.Web.Query.{Effect, Outcome, succeeded, failed, failed_otherwise}

-- the estimate's query is dropped, or the page goes to the list of estimates
abbrev pub leaves : Effect → Bool
leaves (Effect.remove key) = true
leaves (Effect.go_to address) = text_eq address "/estimates"
leaves _ = false

-- the request that deletes the estimate
abbrev pub deletes : String → Estimates → Bool
deletes id (Estimates.delete_estimate e) = text_eq e id
deletes id _ = false

abbrev pub is_delete : Command → Bool
is_delete delete_estimate = true
is_delete _ = false

abbrev pub delete_runs : List Running → Bool
delete_runs = any (λ (r : Running). is_delete r.command)

pub true-false : true ≡ false → ⊥
true-false e = cc

pub any-append {ℓ} :
    {A : Type ℓ} (p : A → Bool) (xs ys : List A) → any p (xs ++ ys) ≡ (any p xs || any p ys)
any-append p [] ys = refl
any-append p (x ∷ xs) ys = ground (arith, any-append p xs ys)

pub any-imp {ℓ} :
    {A : Type ℓ} (p q : A → Bool) (xs : List A)
    → ((x : A) → p x ≡ true → q x ≡ true)
    → any p xs ≡ true
    → any q xs ≡ true
any-imp p q [] f h = h
any-imp p q (x ∷ xs) f h = elim (Bool-cases (p x)) [
  | inl e ↦ rw (f x e) refl
  | inr e ↦ elim (Bool-cases (q x)) [
    | inl y ↦ rw y refl
    | inr n ↦ rw (n, any-imp p q xs f (sym (rw e refl) ∙ h)) refl
  ]
]

pub or_assoc : (a b c : Bool) → (a || (b || c)) ≡ ((a || b) || c)
or_assoc a b c = ground arith

pub never {ℓ} : {A : Type ℓ} (xs : List A) → any (λ x. false) xs ≡ false
never [] = refl
never (x ∷ xs) = never xs

pub delete_runs-overlook :
    (k : Kind) (l : List Running) → delete_runs (map (overlook k) l) ≡ delete_runs l
delete_runs-overlook k [] = refl
delete_runs-overlook k (r ∷ l) = elim (Bool-cases (runs k r)) [
  | inl e ↦ rw (e, delete_runs-overlook k l) refl
  | inr e ↦ rw (e, delete_runs-overlook k l) refl
]

pub delete_runs-drop_at :
    (l : List Running) (i : ℕ) → delete_runs (drop_at l i) ≡ true → delete_runs l ≡ true
delete_runs-drop_at [] i h = h
delete_runs-drop_at (r ∷ l) zero h = ground arith
delete_runs-drop_at (r ∷ l) (suc i) h = ground (arith, delete_runs-drop_at l i)

pub delete_runs-at :
    (l : List Running) (i : ℕ) (r : Running)
    → get_elem? l i ≡ some r
    → is_delete r.command ≡ true
    → delete_runs l ≡ true
delete_runs-at [] i r e h = cc
delete_runs-at (s ∷ l) zero r e h = ground arith
delete_runs-at (s ∷ l) (suc i) r e h = ground (arith, delete_runs-at l i r)

pub requests-delete :
    (id : String) {N : Type 0} (num : Builtins N) (c : Command)
    → is_delete c ≡ true
    → any (deletes id) (requests id num c) ≡ true
requests-delete id num delete_estimate h = rw (text_eq_refl id) refl
requests-delete id num (update form) h = cc
requests-delete id num _ h = cc

module _ (id : String) {N : Type 0} (num : Builtins N) where
  pub end_effects-leaves :
      (c : Command) (outcome : Outcome)
      → any leaves (end_effects id num c outcome) ≡ true
      → is_delete c ≡ true
  end_effects-leaves delete_estimate outcome h = refl
  end_effects-leaves (action name) (succeeded reply) h =
      elim (Bool-cases (text_eq name "duplicate")) [
        | inl e ↦ let h' = rw e at h in cc
        | inr e ↦ elim (Bool-cases (text_eq name "version")) [
          | inl f ↦ let h' = rw (e, f) at h in cc
          | inr f ↦ let h' = rw (e, f) at h in cc
        ]
      ]
  end_effects-leaves (update form) (succeeded reply) h = cc
  end_effects-leaves (update form) (failed message) h = cc
  end_effects-leaves (update form) failed_otherwise h = cc
  end_effects-leaves _ (succeeded reply) h = cc
  end_effects-leaves _ (failed message) h = cc
  end_effects-leaves _ failed_otherwise h = cc

  pub ending-leaves :
      (c : Command) (outcome : Outcome)
      → any leaves (ending id num c outcome) ≡ true
      → is_delete c ≡ true
  ending-leaves (action name) outcome h =
      elim (Bool-cases
        (text_eq name "duplicate" || text_eq name "version" || text_eq name "unlock")) [
          | inl known ↦ end_effects-leaves (action name) outcome (sym (rw known refl) ∙ h)
          | inr other ↦ let h' = rw other at h in cc
        ]
  ending-leaves (update form) outcome h = end_effects-leaves (update form) outcome h
  ending-leaves c outcome h = end_effects-leaves c outcome h
