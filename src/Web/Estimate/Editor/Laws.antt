-- ===== src/Web/Estimate/Editor/Laws.antt =====
-- LineItemEditor.tsx: the quantity that is saved.
use remodelator.Base.{
  ◌≡◌, refl, ap, ◌∙◌, ◌⊎◌, inl, inr, String, Bool, true, false, not, ◌&&◌, ◌||◌, Option, none, some,
  List, [], ◌∷◌, ◌++◌, arith, Bool-cases, if◌then◌else◌,
}
use remodelator.Base.Json.{Json, get_field}
use remodelator.Base.Text.{text_eq, is_empty, is_blank}
use remodelator.Web.Api.Calls.{update_line_item}
use remodelator.Web.Builtins.{Builtins, members}
use remodelator.Web.Client.{member}
use remodelator.Web.Estimate.Editor.{
  Editor, EditorForm, json_of, parse_integer_or_undefined, editor_entries, editor_body,
  submit_editor,
}

-- the member of an object of which some members may be left out
abbrev first : Option Json → Option Json → Option Json
first none other = other
first (some v) other = some v

abbrev entry : String → List (String × Option Json) → Option Json
entry key [] = none
entry key ((name, v) ∷ rest) = if text_eq name key then first v (entry key rest) else entry key rest

get_field-members :
    (key : String) (entries : List (String × Option Json))
    → get_field key (members entries) ≡ entry key entries
get_field-members key [] = refl
get_field-members key ((name, none) ∷ rest) = get_field-members key rest ∙ ground arith
get_field-members key ((name, some v) ∷ rest) = rw (get_field-members key rest) refl

empty_text : (s : String) → is_empty s ≡ true → s ≡ ""
empty_text String.[] e = refl
empty_text (String.◌∷◌ c s) e = cc

module _ {N : Type 0} (num : Builtins N) where
  -- a text that is not blank and stands for a whole, finite number
  abbrev whole : String → Bool
  whole text =
      not (is_blank text)
      && num.is_finite (num.to_number text)
      && num.is_integer (num.to_number text)

  parse_integer_lem :
      (value : String)
      → parse_integer_or_undefined num value
        ≡ (if whole value then some (num.to_number value) else none)
  unfolding parse_integer_or_undefined
  parse_integer_lem value = elim (Bool-cases (is_blank value)) [
    | inl blank ↦ rw blank refl
    | inr given ↦ elim (Bool-cases (num.is_finite (num.to_number value))) [
      | inr odd ↦ rw (given, odd) refl
      | inl finite ↦ elim (Bool-cases (num.is_integer (num.to_number value))) [
        | inr odd ↦ rw (given, finite, odd) refl
        | inl integer ↦ rw (given, finite, integer) refl
      ]
    ]
  ]

  -- no call where one runs or the quantity is refused; else one that saves the line, without a quantity
  -- where the field is empty, and else with the number that it holds
  abbrev pub SavesWhole : String → Editor → Editor → Type 0
  SavesWhole estimate_id s t =
      ((t.calls ≡ s.calls)
        × ((s.saving || (not (is_empty s.form.quantity) && not (whole s.form.quantity))) ≡ true))
      ⊎ ((body : Json) × (s.saving ≡ false)
          × (t.calls ≡ s.calls ++ update_line_item estimate_id s.line_item.id body ∷ [])
          × (((s.form.quantity ≡ "") × (member body "quantity" ≡ none))
              ⊎ ((whole s.form.quantity ≡ true)
                  × (member body "quantity" ≡ some (num.to_json (num.to_number s.form.quantity))))))

  first-none : (v : Option Json) → first v none ≡ v
  first-none none = refl
  first-none (some j) = refl

  body-quantity :
      (f : EditorForm)
      → member (editor_body num f) "quantity"
        ≡ json_of num (parse_integer_or_undefined num f.quantity)
  unfolding editor_body
  body-quantity f = get_field-members "quantity" (editor_entries num f) ∙ first-none _

  -- "Save Changes" sends nothing where an update runs or where the quantity is neither empty nor a whole,
  -- finite number; else it sends one request that saves this line, without a quantity where the field is
  -- empty, and else with the number in the field.
  pub submit_editor-SavesWhole :
      (estimate_id : String) (s : Editor)
      → SavesWhole estimate_id s (submit_editor num estimate_id s)
  unfolding submit_editor
  submit_editor-SavesWhole estimate_id s = elim (Bool-cases s.saving) [
    | inl busy ↦ inl (simp busy refl, simp busy refl)
    | inr free ↦ elim (Bool-cases (whole s.form.quantity)) [
      | inl number ↦
          let e : parse_integer_or_undefined num s.form.quantity
              ≡ some (num.to_number s.form.quantity) =
            parse_integer_lem s.form.quantity ∙ rw number refl in
          inr (
            editor_body num s.form,
            free,
            simp (free, e) (ground arith),
            inr (number, body-quantity s.form ∙ ap (json_of num) e),
          )
      | inr other ↦
          let e : parse_integer_or_undefined num s.form.quantity ≡ none =
            parse_integer_lem s.form.quantity ∙ rw other refl in
          elim (Bool-cases (is_empty s.form.quantity)) [
            | inl blank ↦ inr (
              editor_body num s.form,
              free,
              simp (free, e, blank) refl,
              inl (empty_text s.form.quantity blank, body-quantity s.form ∙ ap (json_of num) e),
            )
            | inr typed ↦ inl (simp (free, e, typed) refl, simp (free, typed, other) refl)
          ]
    ]
  ]
