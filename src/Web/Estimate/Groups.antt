-- ===== src/Web/Estimate/Groups.antt =====
-- apps/web/src/features/estimates/EstimateDetailPage.tsx: the line items under their group names, and
-- the index that a move within a group sends. A `Map` is the list of its entries in insertion order.
pub mod Laws
pub mod Members
use remodelator.Base.{
  ℕ, zero, suc, ◌+◌, String, Bool, Option, none, some, List, [], ◌∷◌, ◌++◌, map, get_elem?, length,
  ltb, if◌then◌else◌,
}
use remodelator.Base.Text.{text_eq, or_text, trim}
use remodelator.Web.Estimate.Types.{LineItem}

abbrev pub Groups : Type 0
Groups = List (String × List LineItem)

-- `line.group_name?.trim() || 'General'`
unfoldable pub group_name_of : LineItem → String
group_name_of line = elim (line.group_name) [
  | none ↦ "General"
  | some name ↦ or_text (trim name) "General"
]

-- the line at the end of its group, which is made if it is missing
unfoldable pub push_line : String → LineItem → Groups → Groups
push_line name line [] = (name, line ∷ []) ∷ []
push_line name line ((key, members) ∷ rest) =
    if text_eq name key
    then (key, members ++ line ∷ []) ∷ rest
    else (key, members) ∷ push_line name line rest

-- the loop over the lines
unfoldable pub group_from : Groups → List LineItem → Groups
unfolding push_line
group_from groups [] = groups
group_from groups (line ∷ lines) = group_from (push_line (group_name_of line) line groups) lines

unfoldable pub grouped_line_items : List LineItem → Groups
unfolding group_from
grouped_line_items lines = group_from [] lines

unfoldable pub existing_groups : List LineItem → List String
unfolding grouped_line_items
existing_groups lines = map (λ (g : String × List LineItem). g.0) (grouped_line_items lines)

-- `lineIndexById.get(id)`: the last line with the id counts
unfoldable pub line_index_by_id : List LineItem → String → Option ℕ
line_index_by_id [] id = none
line_index_by_id (line ∷ lines) id = elim (line_index_by_id lines id) [
  | some i ↦ some (suc i)
  | none ↦ if text_eq line.id id then some 0 else none
]

unfoldable pub prev_in_group : List LineItem → ℕ → Option LineItem
prev_in_group members zero = none
prev_in_group members (suc i) = get_elem? members i

unfoldable pub next_in_group : List LineItem → ℕ → Option LineItem
next_in_group members i = if ltb (i + 1) (length members) then get_elem? members (i + 1) else none

-- the index of a neighbour in the whole estimate, `null` without one
abbrev pub global_index : List LineItem → Option LineItem → Option ℕ
global_index lines none = none
global_index lines (some neighbour) = line_index_by_id lines neighbour.id

unfoldable pub move_up_index : List LineItem → List LineItem → ℕ → Option ℕ
unfolding line_index_by_id prev_in_group
move_up_index lines members i = global_index lines (prev_in_group members i)

unfoldable pub move_down_index : List LineItem → List LineItem → ℕ → Option ℕ
unfolding line_index_by_id next_in_group
move_down_index lines members i = global_index lines (next_in_group members i)

-- the group that the selected lines are moved to
unfoldable pub effective_bulk_group_target : String → String → String
effective_bulk_group_target target custom =
    if text_eq target "__custom__" then trim custom else target
