-- ===== src/Legacy/Status.antt =====
-- archive/apps/web/src_legacy/lib/appStatus.ts: the rooms of the quick start and the list of blockers.
pub mod Laws
use Prim.Native.String.{◌++◌ as text_append}
use remodelator.Base.{
  String, Bool, true, false, not, Option, none, some, List, [], ◌∷◌, ◌++◌, map, filter, any,
  if◌then◌else◌,
}
use remodelator.Base.Set.{add, set_from}
use remodelator.Base.Text.{is_blank, is_empty, or_text, trim}
use remodelator.Legacy.Defaults.{default_external_blockers, default_quickstart_room}
use remodelator.Legacy.Monad.{Platform}
use remodelator.Legacy.Types.{CatalogTreeNode, CatalogTreeItem}

-- `node.items.length > 0`
abbrev pub has_items : CatalogTreeNode → Bool
has_items node = elim (node.items) [ [] ↦ false | _ ∷ _ ↦ true ]

-- the names of the nodes that hold items, without the blank ones
abbrev pub ready_names : List CatalogTreeNode → List String
ready_names tree =
    filter (λ name. not (is_blank name))
      (map (λ (node : CatalogTreeNode). node.name) (filter has_items tree))

-- `sort((a, b) => a.localeCompare(b))`, which keeps the order of names that compare equal
abbrev pub insert_name : (String → String → Bool) → String → List String → List String
insert_name collates name [] = name ∷ []
insert_name collates name (first ∷ rest) =
    if collates name first then name ∷ first ∷ rest else first ∷ insert_name collates name rest

abbrev pub sort_names : (String → String → Bool) → List String → List String
sort_names collates [] = []
sort_names collates (name ∷ names) = insert_name collates name (sort_names collates names)

-- `list.length ? list : [fallback]`
abbrev pub or_single : List String → String → List String
or_single [] fallback = fallback ∷ []
or_single (x ∷ xs) fallback = x ∷ xs

abbrev pub normalized_fallback : String → String
normalized_fallback fallback_name = or_text (trim fallback_name) default_quickstart_room

unfoldable pub build_quickstart_catalog_nodes :
    Platform → List CatalogTreeNode → String → List String
unfolding add
build_quickstart_catalog_nodes platform tree fallback_name =
    or_single (sort_names platform.collates (set_from [] (ready_names tree)))
      (normalized_fallback fallback_name)

unfoldable pub is_quickstart_catalog_ready : List CatalogTreeNode → Bool
is_quickstart_catalog_ready tree = any has_items tree

-- `if (message) blockers.unshift(...)`
abbrev stripe_blocker : Option String → List String
stripe_blocker none = []
stripe_blocker (some message) =
    if is_empty message then [] else text_append "Stripe blocker: " message ∷ []

unfoldable pub build_external_blockers : Bool → String → Option String → List String
build_external_blockers show_llm_blocker_banner llm_blocker_message billing_blocker_message =
    stripe_blocker billing_blocker_message
    ++ (if show_llm_blocker_banner
        then text_append "OpenRouter blocker: " llm_blocker_message ∷ default_external_blockers
        else default_external_blockers)
