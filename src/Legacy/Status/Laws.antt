-- ===== src/Legacy/Status/Laws.antt =====
-- appStatus.ts: which rooms the quick start offers.
use remodelator.Base.{
  ℕ, zero, suc, ◌≡◌, refl, ◌∙◌, ap, sym, String, Bool, true, false, ◌||◌, some, List, [], ◌∷◌, any,
  get_elem?, Bool-cases, inl, inr, arith,
}
use remodelator.Base.Set.{has, set_from}
use remodelator.Base.Set.Laws.{has-set_from}
use remodelator.Base.Text.{text_eq, text_eq_refl, is_blank}
use remodelator.Legacy.Monad.{Platform}
use remodelator.Legacy.Status.{
  has_items, ready_names, insert_name, sort_names, or_single, normalized_fallback,
  build_quickstart_catalog_nodes,
}
use remodelator.Legacy.Types.{CatalogTreeNode, CatalogTreeItem}

has-insert_name :
    (collates : String → String → Bool) (x name : String) (names : List String)
    → has (insert_name collates name names) x ≡ (text_eq x name || has names x)
has-insert_name collates x name [] = refl
has-insert_name collates x name (first ∷ rest) = elim (Bool-cases (collates name first)) [
  | inl before ↦ rw before refl
  | inr after ↦ rw (after, has-insert_name collates x name rest) (ground arith)
]

has-sort_names :
    (collates : String → String → Bool) (x : String) (names : List String)
    → has (sort_names collates names) x ≡ has names x
has-sort_names collates x [] = refl
has-sort_names collates x (name ∷ names) =
    has-insert_name collates x name (sort_names collates names)
    ∙ rw (has-sort_names collates x names) refl

or_single-given :
    (xs : List String) (fallback x : String)
    → has xs x ≡ true
    → has (or_single xs fallback) x ≡ true
or_single-given [] fallback x h = cc
or_single-given (y ∷ xs) fallback x h = h

or_single-only :
    (xs : List String) (fallback x : String)
    → has (or_single xs fallback) x ≡ true
    → (has xs x || text_eq x fallback) ≡ true
or_single-only [] fallback x h = ground arith
or_single-only (y ∷ xs) fallback x h = rw h refl

room_is_ready :
    (platform : Platform) (tree : List CatalogTreeNode) (x : String)
    → has (sort_names platform.collates (set_from [] (ready_names tree))) x
      ≡ any (text_eq x) (ready_names tree)
room_is_ready platform tree x =
    has-sort_names platform.collates x (set_from [] (ready_names tree))
    ∙ has-set_from x [] (ready_names tree)
    ∙ ground arith

is_ready :
    (tree : List CatalogTreeNode) (i : ℕ) (node : CatalogTreeNode) (item : CatalogTreeItem)
    (rest : List CatalogTreeItem)
    → get_elem? tree i ≡ some node
    → node.items ≡ item ∷ rest
    → is_blank node.name ≡ false
    → any (text_eq node.name) (ready_names tree) ≡ true
is_ready [] i node item rest listed held named = cc
is_ready (first ∷ tree) zero node item rest listed held named =
    let same : first ≡ node = ground arith in
    rw same (rw (held, named, text_eq_refl node.name) refl)
is_ready (first ∷ tree) (suc i) node item rest listed held named =
    let later = is_ready tree i node item rest listed held named in
    elim (Bool-cases (has_items first)) [
      | inr empty ↦ rw empty later
      | inl full ↦ elim (Bool-cases (is_blank first.name)) [
        | inl blank ↦ rw (full, blank) later
        | inr given ↦ rw (full, given, later) (ground arith)
      ]
    ]

-- However names compare, a node of the tree that holds an item and whose name is not blank is offered.
pub build_quickstart_catalog_nodes_complete :
    (platform : Platform) (tree : List CatalogTreeNode) (fallback_name : String) (i : ℕ)
    (node : CatalogTreeNode) (item : CatalogTreeItem) (rest : List CatalogTreeItem)
    → get_elem? tree i ≡ some node
    → node.items ≡ item ∷ rest
    → is_blank node.name ≡ false
    → has (build_quickstart_catalog_nodes platform tree fallback_name) node.name ≡ true
unfolding build_quickstart_catalog_nodes
build_quickstart_catalog_nodes_complete platform tree fallback_name i node item rest listed held
      named =
    or_single-given (sort_names platform.collates (set_from [] (ready_names tree)))
      (normalized_fallback fallback_name) node.name
      (room_is_ready platform tree node.name ∙ is_ready tree i node item rest listed held named)

-- What is offered is the name of a node that holds items, or the fallback.
pub build_quickstart_catalog_nodes_sound :
    (platform : Platform) (tree : List CatalogTreeNode) (fallback_name x : String)
    → has (build_quickstart_catalog_nodes platform tree fallback_name) x ≡ true
    → (any (text_eq x) (ready_names tree) || text_eq x (normalized_fallback fallback_name)) ≡ true
unfolding build_quickstart_catalog_nodes
build_quickstart_catalog_nodes_sound platform tree fallback_name x h =
    ap (λ b. b || text_eq x (normalized_fallback fallback_name))
      (sym (room_is_ready platform tree x))
    ∙ or_single-only (sort_names platform.collates (set_from [] (ready_names tree)))
        (normalized_fallback fallback_name) x h
