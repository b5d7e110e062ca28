-- ===== src/Legacy/Sync/Laws.antt =====
-- useEstimateSelectionSync.ts and dataLoaders.ts: the selection against the rows that are listed.
use remodelator.Base.{◌≡◌, refl, ◌⊎◌, inr, String, true, false, List, [], ◌∷◌, any, arith}
use remodelator.Base.Text.{text_eq, text_eq_refl, is_empty}
use remodelator.Legacy.Loaders.{keep_selected_template}
use remodelator.Legacy.Sync.{keep_selected_line}
use remodelator.Legacy.Types.{LineItem, TemplateSummary}

-- the id of some row
abbrev pub HasLine : String → List LineItem → Type 0
HasLine id lines = any (λ (l : LineItem). text_eq l.id id) lines ≡ true

abbrev pub HasTemplate : String → List TemplateSummary → Type 0
HasTemplate id rows = any (λ (r : TemplateSummary). text_eq r.id id) rows ≡ true

-- After the effect the selected line is one of the estimate's lines, or none is selected and the
-- estimate has no lines.
pub keep_selected_line-HasLine :
    (lines : List LineItem) (current : String)
    → HasLine (keep_selected_line lines current) lines
      ⊎ ((lines ≡ []) × (keep_selected_line lines current ≡ ""))
unfolding keep_selected_line
keep_selected_line-HasLine [] current = inr (refl, refl)
keep_selected_line-HasLine (line ∷ lines) current = ground (arith, text_eq_refl line.id)

-- A selected line that is still listed stays selected.
pub keep_selected_line-listed :
    (lines : List LineItem) (current : String)
    → is_empty current ≡ false
    → HasLine current lines
    → keep_selected_line lines current ≡ current
unfolding keep_selected_line
keep_selected_line-listed [] current given listed = cc
keep_selected_line-listed (line ∷ lines) current given listed = rw (given, listed) refl

-- After a load of the templates the selected one is in the list, or none is selected and the list is
-- empty.
pub keep_selected_template-HasTemplate :
    (rows : List TemplateSummary) (current : String)
    → HasTemplate (keep_selected_template rows current) rows
      ⊎ ((rows ≡ []) × (keep_selected_template rows current ≡ ""))
unfolding keep_selected_template
keep_selected_template-HasTemplate [] current = ground arith
keep_selected_template-HasTemplate (row ∷ rows) current = ground (arith, text_eq_refl row.id)

-- A selected template that is still listed stays selected.
pub keep_selected_template-listed :
    (rows : List TemplateSummary) (current : String)
    → is_empty current ≡ false
    → HasTemplate current rows
    → keep_selected_template rows current ≡ current
unfolding keep_selected_template
keep_selected_template-listed [] current given listed = cc
keep_selected_template-listed (row ∷ rows) current given listed = rw (given, listed) refl
