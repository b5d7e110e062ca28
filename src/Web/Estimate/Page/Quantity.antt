-- ===== src/Web/Estimate/Page/Quantity.antt =====
-- EstimateDetailPage.tsx: the quantity of a manual item.
use remodelator.Base.{
  ◌≡◌, refl, ◌⊎◌, inl, inr, String, Bool, true, false, not, ◌&&◌, some, [], ◌∷◌, ◌++◌, arith,
  if◌then◌else◌,
}
use remodelator.Base.Json.{Json}
use remodelator.Web.Api.Calls.{add_line_item}
use remodelator.Web.Builtins.{Builtins}
use remodelator.Web.Client.{member}
use remodelator.Web.Estimate.Page.Bodies.{is_refused_quantity, sent_quantity, manual_item_body}
use remodelator.Web.Estimate.Page.Handlers.{add_manual_item, is_manual, when}
use remodelator.Web.Estimate.Page.Mutations.{mutate, show, calls_of}
use remodelator.Web.Query.{toast_error}
use remodelator.Web.Estimate.Page.State.{
  EstimatePage, is_pending, add_item_mutation, add_item, reset_panel,
}

-- what JavaScript says of 1, and of `Number('')`, which is 0
pub record IsNumbers {N : Type 0} (num : Builtins N) : Type 0 where
  pub one_integer : num.is_integer num.one ≡ true
  pub one_positive : num.is_positive num.one ≡ true
  pub empty_zero : num.is_positive (num.to_number "") ≡ false

module _ (id : String) {N : Type 0} (num : Builtins N) (laws : IsNumbers num) where
  -- a whole number above 0
  abbrev Whole : N → Type 0
  Whole n = (num.is_integer n ≡ true) × (num.is_positive n ≡ true)

  sent_quantity-Whole :
      (quantity : String)
      → is_refused_quantity num quantity ≡ false
      → Whole (sent_quantity num quantity)
  unfolding sent_quantity is_refused_quantity
  sent_quantity-Whole String.[] e = (
    ground (arith, laws.one_integer, laws.empty_zero),
    ground (arith, laws.one_positive, laws.empty_zero),
  )
  sent_quantity-Whole (String.◌∷◌ c s) e =
      (ground (arith, laws.one_integer), ground (arith, laws.one_positive))

  -- no call, or one that adds an item with a whole quantity above 0
  abbrev pub AddsWhole : EstimatePage → EstimatePage → Type 0
  AddsWhole s t =
      (t.calls ≡ s.calls)
      ⊎ ((body : Json) × (n : N) × (t.calls ≡ s.calls ++ add_line_item id body ∷ [])
          × (member body "quantity" ≡ some (num.to_json n))
          × (num.is_integer n ≡ true)
          × (num.is_positive n ≡ true))

  submitted :
      (refused : Bool) (s : EstimatePage)
      → is_refused_quantity num s.item_form.quantity ≡ refused
      → AddsWhole s (
          if refused
          then show (toast_error "Quantity must be a whole number" ∷ []) s
          else mutate id (add_item (manual_item_body num s.item_form) reset_panel) s)
  unfolding mutate calls_of manual_item_body
  submitted true s e = inl refl
  submitted false s e =
      let whole = sent_quantity-Whole s.item_form.quantity e in
      inr (
        manual_item_body num s.item_form,
        sent_quantity num s.item_form.quantity,
        refl,
        refl,
        whole.0,
        whole.1,
      )

  when-AddsWhole : (b : Bool) (s t : EstimatePage) → AddsWhole s t → AddsWhole s (when b t s)
  when-AddsWhole true s t h = h
  when-AddsWhole false s t h = inl refl

  -- The manual form sends nothing, or one request that adds an item, whose quantity is a whole number above
  -- 0, whatever its fields hold, given that 1 is such a number and an empty text stands for none above 0.
  pub add_manual_item-AddsWhole : (s : EstimatePage) → AddsWhole s (add_manual_item id num s)
  unfolding add_manual_item
  add_manual_item-AddsWhole s =
      when-AddsWhole
        (s.adding_item && is_manual s.add_item_mode && not (is_pending add_item_mutation s)) s _
        (submitted (is_refused_quantity num s.item_form.quantity) s refl)
