-- ===== src/Base/Set.antt =====
-- A JavaScript `Set` of texts: the list of its members in the order in which they were added.
pub mod Laws
use Prim.Native.String.{String}
use mathlib.Core.Bool.{Bool, not}
use mathlib.Core.List.{List, [], ◌∷◌, ◌++◌}
use remodelator.Base.Lists.{any, filter}
use remodelator.Base.Tests.{if◌then◌else◌}
use remodelator.Base.Text.{text_eq}

abbrev pub Ids : Type 0
Ids = List String

-- `set.has(id)`
abbrev pub has : Ids → String → Bool
has ids id = any (text_eq id) ids

-- `set.add(id)`
unfoldable pub add : Ids → String → Ids
add ids id = if has ids id then ids else ids ++ id ∷ []

-- `set.delete(id)`
unfoldable pub delete : Ids → String → Ids
delete ids id = filter (λ other. not (text_eq id other)) ids

-- `new Set(ids)`, after the members in `seen`
abbrev pub set_from : Ids → List String → Ids
set_from seen [] = seen
set_from seen (id ∷ ids) = set_from (add seen id) ids
