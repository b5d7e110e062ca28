-- ===== src/Web/Estimate/Assist/Laws.antt =====
-- LlmAssistPanel.tsx: a suggestion is for the line that is selected.
use remodelator.Base.{
  ◌≡◌, refl, String, false, ◌||◌, Option, none, some, List, [], ◌∷◌, ◌++◌, any, Bool-cases, inl,
  inr,
}
use remodelator.Base.Compare.{text_eq-true}
use remodelator.Base.Text.{text_eq, is_empty}
use remodelator.Web.Api.Calls.{apply_llm_suggestion}
use remodelator.Web.Builtins.{Builtins}
use remodelator.Web.Estimate.Assist.{
  Assist, AssistEvent, Suggest, LlmSuggestion, unasked, asked, answered, refused, assist_opened,
  assist_handle, assist_run, reselect, keep_listed, find_line, ask, apply_to, apply_request, answer,
  refuse, after_apply, is_asked,
}
use remodelator.Web.Estimate.Selection.{line_ids}
use remodelator.Web.Estimate.Types.{LineItem}
use remodelator.Web.Query.{Outcome, succeeded, failed, failed_otherwise}

-- the panel knows nothing, or of the line that is selected
abbrev pub Fits : Option String → Suggest → Type 0
Fits selected unasked = Unit {0}
Fits selected (asked id) = selected ≡ some id
Fits selected (answered id suggestion) = selected ≡ some id
Fits selected (refused id message) = selected ≡ some id

abbrev Fitting : Assist → Type 0
Fitting s = Fits s.selected_item_id s.suggest

find_line-id :
    (lines : List LineItem) (selected : Option String) (line : LineItem)
    → find_line lines selected ≡ some line
    → selected ≡ some line.id
find_line-id lines none line e = cc
find_line-id [] (some id) line e = cc
find_line-id (l ∷ lines) (some id) line e = elim (Bool-cases (text_eq l.id id)) [
  | inl same ↦ let e' = rw same at e in let i = text_eq-true l.id id same in cc
  | inr other ↦ find_line-id lines (some id) line (rw other at e)
]

module _ (estimate_id : String) {N : Type 0} (num : Builtins N) where
  ask-Fitting :
      (line : Option LineItem) (s : Assist)
      → ((l : LineItem) → line ≡ some l → s.selected_item_id ≡ some l.id)
      → Fitting s
      → Fitting (ask estimate_id num line s)
  ask-Fitting none s h fit = fit
  ask-Fitting (some line) s h fit = elim (Bool-cases (is_asked s.suggest)) [
    | inl e ↦ rw e fit
    | inr e ↦ rw e (h line refl)
  ]

  keep_listed-Fitting :
      (selected : Option String) (s : Assist) → Fitting s → Fitting (keep_listed selected s)
  unfolding reselect
  keep_listed-Fitting none s fit = fit
  keep_listed-Fitting (some id) s fit = elim (Bool-cases (is_empty id)) [
    | inl e ↦ rw e fit
    | inr e ↦ elim (Bool-cases (any (text_eq id) (line_ids s.line_items))) [
      | inl f ↦ rw (e, f) fit
      | inr f ↦ rw (e, f) tt
    ]
  ]

  apply_to-Fitting :
      (selected : Option String) (suggest : Suggest) (s : Assist)
      → Fitting s
      → Fitting (apply_to estimate_id num selected suggest s)
  apply_to-Fitting (some line) (answered id suggestion) s fit =
      elim (Bool-cases (s.applying || is_empty line)) [ inl e ↦ rw e fit | inr e ↦ rw e fit ]
  apply_to-Fitting none suggest s fit = fit
  apply_to-Fitting (some line) unasked s fit = fit
  apply_to-Fitting (some line) (asked id) s fit = fit
  apply_to-Fitting (some line) (refused id message) s fit = fit

  answer-Fitting :
      (suggest : Suggest) (suggestion : LlmSuggestion) (s : Assist)
      → s.suggest ≡ suggest
      → Fitting s
      → Fitting (answer estimate_id num suggest suggestion s)
  answer-Fitting (asked id) suggestion s e fit = rw e at fit
  answer-Fitting unasked suggestion s e fit = fit
  answer-Fitting (answered id old) suggestion s e fit = fit
  answer-Fitting (refused id message) suggestion s e fit = fit

  refuse-Fitting :
      (suggest : Suggest) (error : Option String) (s : Assist)
      → s.suggest ≡ suggest
      → Fitting s
      → Fitting (refuse estimate_id num suggest error s)
  refuse-Fitting (asked id) error s e fit = rw e at fit
  refuse-Fitting unasked error s e fit = fit
  refuse-Fitting (answered id old) error s e fit = fit
  refuse-Fitting (refused id message) error s e fit = fit

  after_apply-Fitting :
      (outcome : Outcome) (s : Assist) → Fitting s → Fitting (after_apply estimate_id num outcome s)
  unfolding reselect
  after_apply-Fitting (succeeded reply) s fit = tt
  after_apply-Fitting (failed message) s fit = fit
  after_apply-Fitting failed_otherwise s fit = fit

  handle-Fitting :
      (e : AssistEvent) (s : Assist) → Fitting s → Fitting (assist_handle estimate_id num e s)
  unfolding assist_handle reselect
  handle-Fitting (AssistEvent.lines_changed lines) s fit =
      keep_listed-Fitting s.selected_item_id (record s { line_items = lines }) fit
  handle-Fitting (AssistEvent.select_item value) s fit = tt
  handle-Fitting (AssistEvent.context_input value) s fit = fit
  handle-Fitting AssistEvent.get_suggestion s fit =
      ask-Fitting (find_line s.line_items s.selected_item_id) s
        (find_line-id s.line_items s.selected_item_id) fit
  handle-Fitting AssistEvent.apply s fit = apply_to-Fitting s.selected_item_id s.suggest s fit
  handle-Fitting AssistEvent.dismiss s fit = tt
  handle-Fitting (AssistEvent.suggested suggestion) s fit =
      answer-Fitting s.suggest suggestion s refl fit
  handle-Fitting (AssistEvent.suggestion_failed error) s fit =
      refuse-Fitting s.suggest error s refl fit
  handle-Fitting (AssistEvent.applied outcome) s fit = elim (Bool-cases s.applying) [
    | inl e ↦ simp e (after_apply-Fitting outcome s fit)
    | inr e ↦ simp e fit
  ]

  run-Fitting :
      (es : List AssistEvent) (s : Assist) → Fitting s → Fitting (assist_run estimate_id num es s)
  unfolding assist_run
  run-Fitting [] s fit = fit
  run-Fitting (e ∷ es) s fit =
      run-Fitting es (assist_handle estimate_id num e s) (handle-Fitting e s fit)

  -- Whatever happens to the panel, a suggestion that it shows was asked for the line that is selected, and
  -- "Apply", while no other application runs, sends the suggested price for that line.
  pub assist_run-apply :
      (lines : List LineItem) (es : List AssistEvent) (id : String) (suggestion : LlmSuggestion)
      → (assist_run estimate_id num es (assist_opened lines)).suggest ≡ answered id suggestion
      → (assist_run estimate_id num es (assist_opened lines)).applying ≡ false
      → is_empty id ≡ false
      → ((assist_run estimate_id num es (assist_opened lines)).selected_item_id ≡ some id)
        × ((assist_handle estimate_id num AssistEvent.apply
              (assist_run estimate_id num es (assist_opened lines))).calls
            ≡ (assist_run estimate_id num es (assist_opened lines)).calls
              ++ apply_llm_suggestion (apply_request estimate_id num id suggestion) ∷ [])
  unfolding assist_opened assist_handle
  assist_run-apply lines es id suggestion e free given =
      let fit = run-Fitting es (assist_opened lines) tt in
      let selected = rw e at fit in (selected, rw (selected, e, free, given) refl)
