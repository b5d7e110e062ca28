-- ===== src/Legacy/Actions/Reorder.antt =====
-- archive/apps/web/src_legacy/lib/workspaceActions.ts: the quick start, reordering and grouping.
pub mod Laws
use Prim.Native.String.{◌++◌ as text_append}
use remodelator.Base.{
  ℕ, zero, suc, ◌+◌, String, Option, none, some, List, [], ◌∷◌, ◌++◌, ltb, if◌then◌else◌, length,
}
use remodelator.Base.Int.{ℤ, parse_int, at_least, at_most}
use remodelator.Base.Text.{text_eq, trim, is_empty, is_blank}
use remodelator.Legacy.Actions.Common.{estimate_path, line_path, selected_lines}
use remodelator.Legacy.Actions.Workspace.{then_refresh}
use remodelator.Legacy.Guards.{run_with_estimate, run_with_estimate_line}
use remodelator.Legacy.Monad.{World, M, ⊤, done, ◌>>=◌, ◌>>◌, Method, Value, Body, Headers}
use remodelator.Legacy.Runner.{push_log}
use remodelator.Legacy.Types.{LineItem, GroupScope, ReorderDirection}

-- `Math.max(1, Math.min(parsed, 50))`, or 5 where the text is no number
abbrev clamp_items : Option ℤ → ℕ
clamp_items none = 5
clamp_items (some parsed) = at_least 1 (at_most 50 parsed)

unfoldable pub quickstart_max_items : String → ℕ
unfolding parse_int
quickstart_max_items raw = clamp_items (parse_int raw)

-- `findIndex`; `none` is -1
unfoldable pub line_index : String → List LineItem → Option ℕ
line_index line_id [] = none
line_index line_id (line ∷ lines) =
    let later = line_index line_id lines in
    if text_eq line.id line_id then some 0 else elim later [ none ↦ none | some i ↦ some (suc i) ]

-- the new index, if it lies in the list
unfoldable pub new_index : ReorderDirection → ℕ → ℕ → Option ℕ
new_index ReorderDirection.up zero count = none
new_index ReorderDirection.up (suc i) count = if ltb i count then some i else none
new_index ReorderDirection.down i count = if ltb (suc i) count then some (suc i) else none

abbrev target_from : ReorderDirection → Option ℕ → ℕ → Option ℕ
target_from direction none count = none
target_from direction (some i) count = new_index direction i count

-- where the line moves to, if it moves
unfoldable pub reorder_target : ReorderDirection → String → List LineItem → Option ℕ
unfolding line_index new_index
reorder_target direction line_id lines =
    target_from direction (line_index line_id lines) (length lines)

module _ (o : World) where
  quickstart_request : String → Headers → String → M ⊤
  unfolding quickstart_max_items then_refresh
  quickstart_request name headers estimate_id =
      then_refresh o (estimate_path estimate_id "/quickstart") Method.post_method
        (some (
          ("catalog_node_name", Value.text name)
          ∷ ("max_items", Value.number (quickstart_max_items o.forms.estimate.quickstart_max_items))
          ∷ []))
        headers estimate_id

  unfoldable pub on_apply_catalog_quickstart : M ⊤
  unfolding quickstart_request
  on_apply_catalog_quickstart =
      let name = trim o.forms.estimate.quickstart_catalog_node_name in
      if is_empty name
      then push_log "Quick start blocked: provide a catalog room"
      else run_with_estimate o "Estimate quick start" "Quick start blocked: login required"
          "Quick start blocked: select an estimate" (quickstart_request name)

  unfoldable pub move_line : Option ℕ → Headers → String → String → M ⊤
  unfolding then_refresh
  move_line none headers estimate_id line_id = done
  move_line (some index) headers estimate_id line_id =
      then_refresh o (line_path estimate_id line_id "/reorder") Method.post_method
        (some (("new_index", Value.number index) ∷ [])) headers estimate_id

  reorder_line : ReorderDirection → Headers → String → String → M ⊤
  unfolding move_line reorder_target
  reorder_line direction headers estimate_id line_id =
      move_line (reorder_target direction line_id (selected_lines o)) headers estimate_id line_id

  unfoldable pub on_reorder_selected_line : ReorderDirection → M ⊤
  unfolding reorder_line
  on_reorder_selected_line direction =
      run_with_estimate_line o "Reorder selected line" "Line reorder blocked: login required"
        "Line reorder blocked: select estimate" "Line reorder blocked: select line item"
        (reorder_line direction)

  -- the member that limits the grouping to the selected line
  abbrev scope_body : GroupScope → Body
  scope_body GroupScope.all = []
  scope_body GroupScope.selected =
      if is_empty o.core.selected_line_item_id
      then []
      else ("line_item_id", Value.text o.core.selected_line_item_id) ∷ []

  abbrev scope_name : GroupScope → String
  scope_name GroupScope.all = "all"
  scope_name GroupScope.selected = "selected"

  group_lines : GroupScope → Headers → String → M ⊤
  unfolding then_refresh
  group_lines scope headers estimate_id =
      then_refresh o (estimate_path estimate_id "/line-items/group") Method.post_method
        (some (("group_name", Value.text (trim o.forms.line_group_name)) ∷ scope_body scope))
        headers estimate_id

  unfoldable pub on_group_line_items : GroupScope → M ⊤
  unfolding group_lines
  on_group_line_items scope =
      if is_blank o.forms.line_group_name
      then push_log "Line group blocked: select estimate and provide group name"
      else run_with_estimate o
          (text_append "Group line items (" (text_append (scope_name scope) ")"))
          "Line group blocked: login required"
          "Line group blocked: select estimate and provide group name" (group_lines scope)
