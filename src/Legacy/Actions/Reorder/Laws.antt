-- ===== src/Legacy/Actions/Reorder/Laws.antt =====
-- workspaceActions.ts: the numbers that quick start and reordering send.
use remodelator.Base.{
  ℕ, zero, suc, ◌≤◌, ◌<◌, ◌≡◌, refl, inl, inr, String, Option, none, some, List, [], ◌∷◌, length,
  arith, Option-cases,
}
use remodelator.Base.Int.{ℤ, parse_int}
use remodelator.Legacy.Actions.Reorder.{
  clamp_items, quickstart_max_items, line_index, new_index, reorder_target,
}
use remodelator.Legacy.Types.{LineItem, ReorderDirection}

none≢some : {A : Type 0} {a : A} → none ≡ some a → ⊥
none≢some e = cc

clamp_items_bounds : (parsed : Option ℤ) → (1 ≤ clamp_items parsed) × (clamp_items parsed ≤ 50)
clamp_items_bounds none = omega arith
clamp_items_bounds (some (ℤ.pos n)) = omega arith
clamp_items_bounds (some (ℤ.negsuc n)) = omega arith

-- Whatever the field holds, the quick start asks for 1 to 50 items.
pub quickstart_max_items_bounds :
    (raw : String) → (1 ≤ quickstart_max_items raw) × (quickstart_max_items raw ≤ 50)
unfolding quickstart_max_items
quickstart_max_items_bounds raw = clamp_items_bounds (parse_int raw)

-- A number from 1 to 50 is sent as it was entered.
pub quickstart_max_items_exact :
    (raw : String) (n : ℕ)
    → parse_int raw ≡ some (ℤ.pos n)
    → 1 ≤ n
    → n ≤ 50
    → quickstart_max_items raw ≡ n
unfolding quickstart_max_items
quickstart_max_items_exact raw n e lo hi = rw e (omega arith)

-- a found index lies in the list
line_index-lt :
    (line_id : String) (lines : List LineItem) (i : ℕ)
    → line_index line_id lines ≡ some i
    → i < length lines
unfolding line_index
line_index-lt line_id [] i e = cc
line_index-lt line_id (line ∷ lines) i e = elim (Option-cases (line_index line_id lines)) [
  | inl missing ↦ ground arith
  | inr (k, found) ↦ ground (arith, line_index-lt line_id lines k found)
]

-- The line moves by one place, and stays in the list.
abbrev pub IsNeighbour : ReorderDirection → ℕ → ℕ → Type 0
IsNeighbour ReorderDirection.up i j = i ≡ suc j
IsNeighbour ReorderDirection.down i j = j ≡ suc i

new_index_lem :
    (direction : ReorderDirection) (i count j : ℕ)
    → new_index direction i count ≡ some j
    → (j < count) × IsNeighbour direction i j
unfolding new_index
new_index_lem ReorderDirection.up zero count j e = cc
new_index_lem ReorderDirection.up (suc i) count j e = ground arith
new_index_lem ReorderDirection.down i count j e = ground arith

-- An index that is sent lies in the list, and is the one just before (up) or just after (down) the
-- index of the selected line, which is in the list.
pub reorder_target-IsNeighbour :
    (direction : ReorderDirection) (line_id : String) (lines : List LineItem) (j : ℕ)
    → reorder_target direction line_id lines ≡ some j
    → (j < length lines)
      × ((i : ℕ) × (line_index line_id lines ≡ some i) × IsNeighbour direction i j)
unfolding reorder_target
reorder_target-IsNeighbour direction line_id lines j e =
    elim (Option-cases (line_index line_id lines)) [
      | inl missing ↦ absurd (none≢some (rw missing at e))
      | inr (i, found) ↦
          let (fits, next) = new_index_lem direction i (length lines) j (rw found at e) in
          (fits, (i, found, next))
    ]

new_index-up-none : (i count : ℕ) → i < count → new_index ReorderDirection.up i count ≡ none → i ≡ 0
unfolding new_index
new_index-up-none zero count h e = refl
new_index-up-none (suc i) count h e = ground arith

new_index-down-none :
    (i count : ℕ) → i < count → new_index ReorderDirection.down i count ≡ none → suc i ≡ count
unfolding new_index
new_index-down-none i count h e = ground arith

-- a listed line that does not move stands at that end of the list
abbrev pub IsAtEnd : ReorderDirection → ℕ → ℕ → Type 0
IsAtEnd ReorderDirection.up i count = i ≡ 0
IsAtEnd ReorderDirection.down i count = suc i ≡ count

new_index-IsAtEnd :
    (direction : ReorderDirection) (i count : ℕ)
    → i < count
    → new_index direction i count ≡ none
    → IsAtEnd direction i count
new_index-IsAtEnd ReorderDirection.up i count h e = new_index-up-none i count h e
new_index-IsAtEnd ReorderDirection.down i count h e = new_index-down-none i count h e

-- A line of the list for which no index is sent stands at the end in whose direction it should move.
pub reorder_target-IsAtEnd :
    (direction : ReorderDirection) (line_id : String) (lines : List LineItem) (i : ℕ)
    → line_index line_id lines ≡ some i
    → reorder_target direction line_id lines ≡ none
    → IsAtEnd direction i (length lines)
unfolding reorder_target
reorder_target-IsAtEnd direction line_id lines i found e =
    new_index-IsAtEnd direction i (length lines) (line_index-lt line_id lines i found)
      (rw found at e)
