-- ===== src/Web/Estimate/Selection/Laws.antt =====
-- EstimateDetailPage.tsx: what is ticked after each change.
use remodelator.Base.{
  ℕ, suc, ap, ltb, length, ◌≡◌, refl, sym, ◌∙◌, String, Bool, true, false, not, List, [], ◌∷◌, ◌&&◌,
  any, all, filter, arith, Bool-cases, inl, inr, if◌then◌else◌,
}
use remodelator.Base.Compare.{text_eq-sym}
use remodelator.Base.Text.{text_eq, text_eq_refl}
use remodelator.Web.Estimate.Selection.{
  line_ids, prune_selection, all_selected, toggle_line_selection, toggle_all_selection,
  toggle_group_selection, toggle_catalog_node,
}
use remodelator.Base.Set.{Ids, has, add, delete, set_from}
use remodelator.Base.Set.Laws.{has-add, has-delete, has-set_from, has-filter}
use remodelator.Web.Estimate.Types.{LineItem}

-- After an id is ticked or unticked, it is selected just when it was ticked, and every other id is as
-- before.
pub has-toggle_line_selection :
    (x id : String) (checked : Bool) (prev : Ids)
    → has (toggle_line_selection id checked prev) x ≡ (if text_eq id x then checked else has prev x)
unfolding toggle_line_selection
has-toggle_line_selection x id true prev = has-add x id prev ∙ rw (text_eq-sym x id) (ground arith)
has-toggle_line_selection x id false prev = has-delete x id prev ∙ ground arith

-- After the checkbox of a group is set, the ids of its lines are selected just when it is ticked, and
-- every other id is as before.
pub has-toggle_group_selection :
    (x : String) (lines : List LineItem) (checked : Bool) (prev : Ids)
    → has (toggle_group_selection lines checked prev) x
      ≡ (if any (text_eq x) (line_ids lines) then checked else has prev x)
unfolding toggle_group_selection
has-toggle_group_selection x [] checked prev = refl
has-toggle_group_selection x (line ∷ lines) true prev =
    has-toggle_group_selection x lines true (add prev line.id)
    ∙ rw (has-add x line.id prev) (ground arith)
has-toggle_group_selection x (line ∷ lines) false prev =
    has-toggle_group_selection x lines false (delete prev line.id)
    ∙ rw (has-delete x line.id prev, text_eq-sym line.id x) (ground arith)

-- The effect keeps just the ids of the lines that are left.
pub has-prune_selection :
    (x : String) (lines : List LineItem) (prev : Ids)
    → has (prune_selection lines prev) x ≡ (any (text_eq x) (line_ids lines) && has prev x)
unfolding prune_selection
has-prune_selection x lines prev =
    has-set_from x [] (filter (has (set_from [] (line_ids lines))) prev)
    ∙ rw (has-filter x (set_from [] (line_ids lines)) prev, has-set_from x [] (line_ids lines))
        (ground arith)

toggle_catalog_node-open :
    (name : String) (prev : Ids)
    → has prev name ≡ true
    → toggle_catalog_node name prev ≡ delete prev name
unfolding toggle_catalog_node
toggle_catalog_node-open name prev e = rw e refl

toggle_catalog_node-closed :
    (name : String) (prev : Ids)
    → has prev name ≡ false
    → toggle_catalog_node name prev ≡ add prev name
unfolding toggle_catalog_node
toggle_catalog_node-closed name prev e = rw e refl

-- Toggling a node opens it when it was closed and closes it when it was open, and leaves every other
-- node as it was.
pub has-toggle_catalog_node :
    (x name : String) (prev : Ids)
    → has (toggle_catalog_node name prev) x
      ≡ (if text_eq name x then not (has prev name) else has prev x)
unfolding toggle_catalog_node
has-toggle_catalog_node x name prev = elim (Bool-cases (has prev name)) [
  | inl opened ↦
      ap (λ s. has s x) (toggle_catalog_node-open name prev opened)
      ∙ has-delete x name prev
      ∙ rw opened (ground arith)
  | inr closed ↦
      ap (λ s. has s x) (toggle_catalog_node-closed name prev closed)
      ∙ has-add x name prev
      ∙ rw (text_eq-sym x name, closed) (ground arith)
]

-- the boxes of all lines
every_line-has :
    (lines : List LineItem) (ids : Ids)
    → ((x : String) → any (text_eq x) (line_ids lines) ≡ true → has ids x ≡ true)
    → all (λ (l : LineItem). has ids l.id) lines ≡ true
every_line-has [] ids h = refl
every_line-has (line ∷ lines) ids h =
    rw (h line.id (rw (text_eq_refl line.id) refl))
      (every_line-has lines ids (λ x found. h x (rw found (ground arith))))

pub has-toggle_all_selection :
    (x : String) (lines : List LineItem) (prev : Ids)
    → has (toggle_all_selection lines true prev) x ≡ any (text_eq x) (line_ids lines)
unfolding toggle_all_selection
has-toggle_all_selection x lines prev = has-set_from x [] (line_ids lines) ∙ ground arith

all_selected-cons :
    (line : LineItem) (lines : List LineItem) (ids : Ids)
    → ((x : String) → any (text_eq x) (line_ids (line ∷ lines)) ≡ true → has ids x ≡ true)
    → all_selected (line ∷ lines) ids ≡ true
unfolding all_selected
all_selected-cons line lines ids h = every_line-has (line ∷ lines) ids h

zero_lt_suc : (n : ℕ) → ltb 0 (suc n) ≡ true
zero_lt_suc n = ground arith

-- "Select all", ticked, selects the ids of the lines and no others, and its box then shows as ticked if
-- there is a line; unticked, it selects none.
pub toggle_all_selection-all_selected :
    (x : String) (lines : List LineItem) (prev : Ids)
    → (has (toggle_all_selection lines true prev) x ≡ any (text_eq x) (line_ids lines))
      × (all_selected lines (toggle_all_selection lines true prev) ≡ ltb 0 (length lines))
      × (toggle_all_selection lines false prev ≡ [])
toggle_all_selection-all_selected x [] prev = (
  has-toggle_all_selection x [] prev,
  (unfold all_selected in refl),
  (unfold toggle_all_selection in refl),
)
toggle_all_selection-all_selected x (line ∷ lines) prev = (
  has-toggle_all_selection x (line ∷ lines) prev,
  all_selected-cons line lines _ (λ y found. has-toggle_all_selection y (line ∷ lines) prev ∙ found)
      ∙ sym (zero_lt_suc (length lines)),
  (unfold toggle_all_selection in refl),
)
