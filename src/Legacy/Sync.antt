-- ===== src/Legacy/Sync.antt =====
-- archive/apps/web/src_legacy/lib/useEstimateSelectionSync.ts: the effects that follow a change of the
-- selected estimate or line. Each is given the render `o` whose values it reads.
pub mod Laws
use remodelator.Base.{
  String, Bool, Option, none, some, List, [], ◌∷◌, if◌then◌else◌, get_or_else, any,
}
use remodelator.Base.Text.{is_empty, or_text, text_eq}
use remodelator.Legacy.Actions.Common.{selected_lines, selected_line}
use remodelator.Legacy.Defaults.{default_group_name}
use remodelator.Legacy.Monad.{World, M, ⊤, done, ◌>>◌, set_core, set_forms}
use remodelator.Legacy.State.{WorkspaceForms, reset_edit_line_item_form}
use remodelator.Legacy.Types.{LineItem, Estimate}

-- the updater of the selected line: kept while the list has it, else the first line
unfoldable pub keep_selected_line : List LineItem → String → String
keep_selected_line [] current = ""
keep_selected_line (line ∷ lines) current =
    if is_empty current
    then line.id
    else if any (λ (l : LineItem). text_eq l.id current) (line ∷ lines)
    then current
    else line.id

unfoldable pub sync_selected_line : World → M ⊤
unfolding keep_selected_line selected_lines
sync_selected_line o = set_core λ c. record c {
  selected_line_item_id = keep_selected_line (selected_lines o) c.selected_line_item_id;
}

edit_line : LineItem → WorkspaceForms → WorkspaceForms
edit_line line f = record f {
  edit = record {
    quantity = line.quantity;
    unit_price = line.unit_price;
    labor_hours = line.labor_hours;
    item_markup_pct = line.item_markup_pct;
    discount_value = line.discount_value;
    discount_is_percent = line.discount_is_percent;
    group_name = or_text line.group_name default_group_name;
  };
  line_group_name = or_text line.group_name default_group_name;
}

edit_form_for : Option LineItem → M ⊤
unfolding edit_line
edit_form_for none = set_forms reset_edit_line_item_form
edit_form_for (some line) = set_forms (edit_line line)

unfoldable pub sync_edit_form : World → M ⊤
unfolding edit_form_for selected_line
sync_edit_form o = edit_form_for (selected_line o)

estimate_form_for : Option Estimate → M ⊤
estimate_form_for none = done
estimate_form_for (some e) = set_forms λ f. record f {
  estimate = record (f.estimate) {
    title = e.title;
    customer_name = get_or_else e.customer_name "";
    customer_email = get_or_else e.customer_email "";
    customer_phone = get_or_else e.customer_phone "";
    job_address = get_or_else e.job_address "";
    estimate_markup_pct = get_or_else e.estimate_markup_pct "0";
    tax_rate_pct = get_or_else e.tax_rate_pct "0";
  };
}

unfoldable pub sync_estimate_form : World → M ⊤
unfolding estimate_form_for
sync_estimate_form o = estimate_form_for o.core.selected_estimate
