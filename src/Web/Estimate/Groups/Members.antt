-- ===== src/Web/Estimate/Groups/Members.antt =====
-- EstimateDetailPage.tsx: the ids under the names are those of the lines.
use remodelator.Base.{
  ℕ, zero, suc, ◌≡◌, refl, ◌∙◌, String, Bool, true, false, ◌||◌, some, List, [], ◌∷◌, ◌++◌, any,
  get_elem?, arith, Bool-cases, inl, inr,
}
use remodelator.Base.Text.{text_eq, text_eq_refl}
use remodelator.Web.Estimate.Groups.{
  Groups, push_line, group_from, grouped_line_items, group_name_of,
}
use remodelator.Web.Estimate.Selection.{line_ids}
use remodelator.Web.Estimate.Types.{LineItem}

-- an id of a line of some group
abbrev in_groups : String → Groups → Bool
in_groups x [] = false
in_groups x ((name, members) ∷ rest) = any (text_eq x) (line_ids members) || in_groups x rest

any-last :
    (x : String) (members : List LineItem) (line : LineItem)
    → any (text_eq x) (line_ids (members ++ line ∷ []))
      ≡ (any (text_eq x) (line_ids members) || text_eq x line.id)
any-last x [] line = ground arith
any-last x (m ∷ members) line = ground (arith, any-last x members line)

in_groups-push_line :
    (x name : String) (line : LineItem) (groups : Groups)
    → in_groups x (push_line name line groups) ≡ (in_groups x groups || text_eq x line.id)
unfolding push_line
in_groups-push_line x name line [] = ground arith
in_groups-push_line x name line ((key, members) ∷ rest) = elim (Bool-cases (text_eq name key)) [
  | inl e ↦ rw (e, any-last x members line) (ground arith)
  | inr e ↦ rw (e, in_groups-push_line x name line rest) (ground arith)
]

in_groups-group_from :
    (x : String) (groups : Groups) (lines : List LineItem)
    → in_groups x (group_from groups lines)
      ≡ (in_groups x groups || any (text_eq x) (line_ids lines))
unfolding group_from
in_groups-group_from x groups [] = ground arith
in_groups-group_from x groups (line ∷ lines) =
    in_groups-group_from x (push_line (group_name_of line) line groups) lines
    ∙ rw (in_groups-push_line x (group_name_of line) line groups) (ground arith)

in_groups-member :
    (x : String) (groups : Groups) (g : ℕ) (name : String) (members : List LineItem)
    → get_elem? groups g ≡ some (name, members)
    → any (text_eq x) (line_ids members) ≡ true
    → in_groups x groups ≡ true
in_groups-member x [] g name members e h = cc
in_groups-member x ((key, ms) ∷ rest) zero name members e h = ground arith
in_groups-member x ((key, ms) ∷ rest) (suc g) name members e h =
    ground (arith, in_groups-member x rest g name members)

-- the ids of a group are ids of the lines
pub group-ids :
    (x : String) (lines : List LineItem) (g : ℕ) (name : String) (members : List LineItem)
    → get_elem? (grouped_line_items lines) g ≡ some (name, members)
    → any (text_eq x) (line_ids members) ≡ true
    → any (text_eq x) (line_ids lines) ≡ true
unfolding grouped_line_items
group-ids x lines g name members e h =
    let found = in_groups-member x (grouped_line_items lines) g name members e h in
    rw (in_groups-group_from x [] lines) at found

-- and so is the id of a line of a group
pub line_of-ids :
    (members : List LineItem) (i : ℕ) (line : LineItem)
    → get_elem? members i ≡ some line
    → any (text_eq line.id) (line_ids members) ≡ true
line_of-ids [] i line e = cc
line_of-ids (m ∷ members) zero line e =
    let same : m ≡ line = ground arith in rw same (rw (text_eq_refl line.id) refl)
line_of-ids (m ∷ members) (suc i) line e = ground (arith, line_of-ids members i line)
