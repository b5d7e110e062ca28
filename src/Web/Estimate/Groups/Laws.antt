-- ===== src/Web/Estimate/Groups/Laws.antt =====
-- EstimateDetailPage.tsx: the lines under each group name, and the index that a move sends.
use mathlib.Core.List.{append-nil, append_assoc}
use remodelator.Base.{
  ℕ, zero, suc, ◌+◌, ◌≡◌, refl, sym, ap, subst, ◌∙◌, String, Bool, true, false, Option, none, some,
  List, [], ◌∷◌, ◌++◌, map, filter, any, get_elem?, length, ltb, arith, Bool-cases, Option-cases,
  inl, inr, if◌then◌else◌,
}
use remodelator.Base.Compare.{text_eq-true, text_eq-sym, text_eq-to}
use remodelator.Base.Text.{text_eq, text_eq_refl}
use remodelator.Web.Estimate.Groups.{
  Groups, group_name_of, push_line, group_from, grouped_line_items, existing_groups,
  line_index_by_id, move_up_index, move_down_index,
}
use remodelator.Base.Set.{add, has, set_from}
use remodelator.Web.Estimate.Selection.{line_ids}
use remodelator.Web.Estimate.Types.{LineItem}

-- the lines shown under a name
abbrev pub members_of : String → Groups → List LineItem
members_of name [] = []
members_of name ((key, members) ∷ rest) = if text_eq name key then members else members_of name rest

-- the lines that belong under a name, in the order of the estimate
abbrev pub lines_named : String → List LineItem → List LineItem
lines_named name lines = filter (λ (l : LineItem). text_eq name (group_name_of l)) lines

abbrev pub names_of : Groups → List String
names_of groups = map (λ (g : String × List LineItem). g.0) groups

none≢some : {A : Type 0} {a : A} → none ≡ some a → ⊥
none≢some e = cc

true≢false : true ≡ false → ⊥
true≢false e = cc

some-injective : {A : Type 0} {a b : A} → some a ≡ some b → a ≡ b
some-injective e = cc

members_of-push_line :
    (name at : String) (line : LineItem) (groups : Groups)
    → members_of name (push_line at line groups)
      ≡ (if text_eq name at then members_of name groups ++ line ∷ [] else members_of name groups)
unfolding push_line
members_of-push_line name at line [] = refl
members_of-push_line name at line ((key, members) ∷ rest) = elim (Bool-cases (text_eq at key)) [
  | inl same ↦ elim (Bool-cases (text_eq name key)) [
    | inl here ↦ rw (same, text_eq-to at key name same, here) refl
    | inr there ↦ rw (same, text_eq-to at key name same, there) refl
  ]
  | inr other ↦ elim (Bool-cases (text_eq name key)) [
    | inl here ↦ rw (other, text_eq-sym name at ∙ text_eq-to name key at here, other, here) refl
    | inr there ↦ rw (other, there, members_of-push_line name at line rest) refl
  ]
]

names_of-push_line :
    (at : String) (line : LineItem) (groups : Groups)
    → names_of (push_line at line groups) ≡ add (names_of groups) at
unfolding push_line add
names_of-push_line at line [] = refl
names_of-push_line at line ((key, members) ∷ rest) = elim (Bool-cases (text_eq at key)) [
  | inl same ↦ rw same refl
  | inr other ↦ elim (Bool-cases (has (names_of rest) at)) [
    | inl found ↦ rw (other, names_of-push_line at line rest, found) refl
    | inr missing ↦ rw (other, names_of-push_line at line rest, missing) refl
  ]
]

members_of-group_from :
    (name : String) (groups : Groups) (lines : List LineItem)
    → members_of name (group_from groups lines) ≡ members_of name groups ++ lines_named name lines
unfolding group_from
members_of-group_from name groups [] = sym (append-nil (members_of name groups))
members_of-group_from name groups (line ∷ lines) =
    elim (Bool-cases (text_eq name (group_name_of line))) [
      | inl here ↦
          members_of-group_from name (push_line (group_name_of line) line groups) lines
          ∙ rw (members_of-push_line name (group_name_of line) line groups, here)
              (append_assoc (members_of name groups) (line ∷ []) (lines_named name lines))
      | inr there ↦
          members_of-group_from name (push_line (group_name_of line) line groups) lines
          ∙ rw (members_of-push_line name (group_name_of line) line groups, there) refl
    ]

names_of-group_from :
    (groups : Groups) (lines : List LineItem)
    → names_of (group_from groups lines) ≡ set_from (names_of groups) (map group_name_of lines)
unfolding group_from
names_of-group_from groups [] = refl
names_of-group_from groups (line ∷ lines) =
    names_of-group_from (push_line (group_name_of line) line groups) lines
    ∙ ap (λ names. set_from names (map group_name_of lines))
        (names_of-push_line (group_name_of line) line groups)

-- Under every name stand just the lines of that name, in the order of the estimate, and the names are
-- those of the lines, each once, in the order in which they first occur.
pub grouped_line_items-partition :
    (lines : List LineItem) (name : String)
    → (members_of name (grouped_line_items lines) ≡ lines_named name lines)
      × (existing_groups lines ≡ set_from [] (map group_name_of lines))
unfolding existing_groups grouped_line_items
grouped_line_items-partition lines name =
    (members_of-group_from name [] lines, names_of-group_from [] lines)

-- a found index is that of a line with the id
line_index_by_id-id :
    (lines : List LineItem) (id : String) (j : ℕ)
    → line_index_by_id lines id ≡ some j
    → (m : LineItem) × (get_elem? lines j ≡ some m) × (m.id ≡ id)
unfolding line_index_by_id
line_index_by_id-id [] id j e = cc
line_index_by_id-id (line ∷ lines) id j e = elim (Option-cases (line_index_by_id lines id)) [
  | inr (k, found) ↦
      subst (λ n. (m : LineItem) × (get_elem? (line ∷ lines) n ≡ some m) × (m.id ≡ id))
        (some-injective (rw found at e)) (line_index_by_id-id lines id k found)
  | inl missing ↦ elim (Bool-cases (text_eq line.id id)) [
    | inl same ↦
        subst (λ n. (m : LineItem) × (get_elem? (line ∷ lines) n ≡ some m) × (m.id ≡ id))
          (some-injective (rw (missing, same) at e)) (line, refl, text_eq-true line.id id same)
    | inr other ↦ absurd (none≢some (rw (missing, other) at e))
  ]
]

line_index_by_id-none :
    (lines : List LineItem) (id : String)
    → line_index_by_id lines id ≡ none
    → any (text_eq id) (line_ids lines) ≡ false
unfolding line_index_by_id
line_index_by_id-none [] id e = refl
line_index_by_id-none (line ∷ lines) id e = elim (Option-cases (line_index_by_id lines id)) [
  | inr (k, found) ↦ absurd (none≢some (sym (rw found at e)))
  | inl missing ↦ elim (Bool-cases (text_eq line.id id)) [
    | inl same ↦ absurd (none≢some (sym (rw (missing, same) at e)))
    | inr other ↦ rw (text_eq-sym id line.id, other, line_index_by_id-none lines id missing) refl
  ]
]

-- an id that some line has is found, at a line that has it
line_index_by_id-found :
    (lines : List LineItem) (id : String)
    → any (text_eq id) (line_ids lines) ≡ true
    → (j : ℕ) × (m : LineItem) × (line_index_by_id lines id ≡ some j)
      × (get_elem? lines j ≡ some m)
      × (m.id ≡ id)
line_index_by_id-found lines id h = elim (Option-cases (line_index_by_id lines id)) [
  | inl missing ↦ absurd (true≢false (sym h ∙ line_index_by_id-none lines id missing))
  | inr (j, found) ↦
      let (m, there, same) = line_index_by_id-id lines id j found in (j, m, found, there, same)
]

any-get_elem :
    (lines : List LineItem) (i : ℕ) (line : LineItem)
    → get_elem? lines i ≡ some line
    → any (text_eq line.id) (line_ids lines) ≡ true
any-get_elem [] i line e = cc
any-get_elem (first ∷ lines) zero line e =
    rw (ap (λ (l : LineItem). l.id) (some-injective e), text_eq_refl line.id) refl
any-get_elem (first ∷ lines) (suc i) line e = rw (any-get_elem lines i line e) (ground arith)

any-filter :
    (p : LineItem → Bool) (id : String) (lines : List LineItem)
    → any (text_eq id) (line_ids (filter p lines)) ≡ true
    → any (text_eq id) (line_ids lines) ≡ true
any-filter p id [] h = h
any-filter p id (line ∷ lines) h = ground (arith, any-filter p id lines)

-- an index of the estimate at which a line with this id stands
abbrev pub Names : List LineItem → String → Option ℕ → Type 0
Names lines id index =
    (j : ℕ) × (m : LineItem) × (index ≡ some j) × (get_elem? lines j ≡ some m) × (m.id ≡ id)

global_index-Names :
    (lines : List LineItem) (name : String) (i : ℕ) (line : LineItem)
    → get_elem? (members_of name (grouped_line_items lines)) i ≡ some line
    → Names lines line.id (line_index_by_id lines line.id)
global_index-Names lines name i line e =
    let shown = rw (grouped_line_items-partition lines name).0 at e in
    line_index_by_id-found lines line.id (
      any-filter (λ (l : LineItem). text_eq name (group_name_of l)) line.id lines
        (any-get_elem (lines_named name lines) i line shown))

get_elem?-lt :
    (lines : List LineItem) (i : ℕ) (line : LineItem)
    → get_elem? lines i ≡ some line
    → ltb i (length lines) ≡ true
get_elem?-lt [] i line e = cc
get_elem?-lt (first ∷ lines) zero line e = ground arith
get_elem?-lt (first ∷ lines) (suc i) line e = ground (arith, get_elem?-lt lines i line e)

-- Of two lines that follow one another in a group, the upper one can be moved down and the lower one up:
-- the index that is sent is that of a line of the estimate with the id of the other.
pub move_index-neighbour :
    (lines : List LineItem) (name : String) (i : ℕ) (upper lower : LineItem)
    → get_elem? (members_of name (grouped_line_items lines)) i ≡ some upper
    → get_elem? (members_of name (grouped_line_items lines)) (i + 1) ≡ some lower
    → Names lines lower.id (move_down_index lines (members_of name (grouped_line_items lines)) i)
      × Names lines upper.id
          (move_up_index lines (members_of name (grouped_line_items lines)) (suc i))
unfolding move_up_index move_down_index
move_index-neighbour lines name i upper lower first second = (
  rw (get_elem?-lt (members_of name (grouped_line_items lines)) (i + 1) lower second, second)
      (global_index-Names lines name (i + 1) lower second),
  rw first (global_index-Names lines name i upper first),
)
