-- ===== src/Legacy/Actions/Common.antt =====
-- formatters.ts, `decimalOrZero`; and the estimate's lines as useAppController.ts derives them.
use Prim.Native.String.{◌++◌ as text_append}
use remodelator.Base.{String, Option, none, some, List, [], find, get_or_else}
use remodelator.Base.Text.{trim, or_text, text_eq}
use remodelator.Legacy.Defaults.{default_group_name}
use remodelator.Legacy.Monad.{World}
use remodelator.Legacy.Types.{Estimate, LineItem}

unfoldable pub decimal_or_zero : String → String
decimal_or_zero value = or_text (trim value) "0"

-- `name.trim() || defaultLineItemGroupName`
unfoldable pub group_or_default : String → String
group_or_default name = or_text (trim name) default_group_name

-- `/estimates/${id}${rest}`
abbrev pub estimate_path : String → String → String
estimate_path estimate_id rest = text_append "/estimates/" (text_append estimate_id rest)

-- `/estimates/${id}/line-items/${lineId}${rest}`
abbrev pub line_path : String → String → String → String
line_path estimate_id line_id rest =
    estimate_path estimate_id (text_append "/line-items/" (text_append line_id rest))

abbrev lines_of : Option Estimate → List LineItem
lines_of none = []
lines_of (some e) = get_or_else e.line_items []

unfoldable pub selected_lines : World → List LineItem
selected_lines o = lines_of o.core.selected_estimate

unfoldable pub selected_line : World → Option LineItem
unfolding selected_lines
selected_line o =
    find (λ (line : LineItem). text_eq line.id o.core.selected_line_item_id) (selected_lines o)
