-- ===== src/Web/Estimate/Selection.antt =====
-- apps/web/src/features/estimates/EstimateDetailPage.tsx: which line items are ticked.
pub mod Laws
use remodelator.Base.{
  String, Bool, true, false, not, List, [], ◌∷◌, ◌++◌, ◌&&◌, map, any, all, filter, if◌then◌else◌,
}
use remodelator.Base.Text.{text_eq}
use remodelator.Base.Set.{Ids, has, add, delete, set_from}
use remodelator.Web.Estimate.Types.{LineItem}

abbrev pub line_ids : List LineItem → List String
line_ids lines = map (λ (l : LineItem). l.id) lines

-- the effect on a change of the lines: ids without a line are dropped
unfoldable pub prune_selection : List LineItem → Ids → Ids
unfolding add
prune_selection lines prev =
    let valid = set_from [] (line_ids lines) in set_from [] (filter (has valid) prev)

unfoldable pub all_selected : List LineItem → Ids → Bool
all_selected [] ids = false
all_selected (line ∷ lines) ids = all (λ (l : LineItem). has ids l.id) (line ∷ lines)

-- one id, ticked or not
unfoldable pub toggle_line_selection : String → Bool → Ids → Ids
unfolding add delete
toggle_line_selection id checked prev = if checked then add prev id else delete prev id

unfoldable pub toggle_all_selection : List LineItem → Bool → Ids → Ids
unfolding add
toggle_all_selection lines checked prev = if checked then set_from [] (line_ids lines) else []

-- the loop over the lines of a group
unfoldable pub toggle_group_selection : List LineItem → Bool → Ids → Ids
unfolding add delete
toggle_group_selection [] checked next = next
toggle_group_selection (line ∷ lines) checked next =
    toggle_group_selection lines checked (if checked then add next line.id else delete next line.id)

unfoldable pub group_selected : List LineItem → Ids → Bool
group_selected lines ids = all (λ (l : LineItem). has ids l.id) lines

-- `setCatalogExpandedNodes` in `toggleCatalogNode`
unfoldable pub toggle_catalog_node : String → Ids → Ids
unfolding add delete
toggle_catalog_node name prev = if has prev name then delete prev name else add prev name
