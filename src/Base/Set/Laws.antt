-- ===== src/Base/Set/Laws.antt =====
-- Which texts are members after a change of a `Set`.
use Prim.Native.String.{String}
use mathlib.Core.Path.{◌≡◌, refl, ◌∙◌}
use mathlib.Core.Logic.{inl, inr}
use mathlib.Core.Bool.{Bool, true, not, ◌&&◌, ◌||◌}
use mathlib.Core.List.{List, [], ◌∷◌, ◌++◌}
use native.Mathlib.Omega.{arith}
use remodelator.Base.Compare.{text_eq-true, text_eq-left, text_eq-right}
use remodelator.Base.Lists.{any, filter}
use remodelator.Base.Set.{Ids, has, add, delete, set_from}
use remodelator.Base.Tests.{Bool-cases}
use remodelator.Base.Text.{text_eq}

any-append : (p : String → Bool) (xs ys : List String) → any p (xs ++ ys) ≡ (any p xs || any p ys)
any-append p [] ys = refl
any-append p (x ∷ xs) ys = ground (arith, any-append p xs ys)

-- equal ids are found alike
has-text_eq : (x y : String) (ids : Ids) → text_eq x y ≡ true → has ids x ≡ has ids y
has-text_eq x y ids e = rw (text_eq-true x y e) refl

pub has-add : (x id : String) (ids : Ids) → has (add ids id) x ≡ (text_eq x id || has ids x)
unfolding add
has-add x id ids = elim (Bool-cases (has ids id)) [
  | inl found ↦ elim (Bool-cases (text_eq x id)) [
    | inl same ↦ rw (found, same) (has-text_eq x id ids same ∙ found)
    | inr other ↦ rw (found, other) refl
  ]
  | inr missing ↦ rw (missing, any-append (text_eq x) ids (id ∷ [])) (ground arith)
]

pub has-delete :
    (x id : String) (ids : Ids) → has (delete ids id) x ≡ (not (text_eq id x) && has ids x)
unfolding delete
has-delete x id [] = ground arith
has-delete x id (y ∷ ids) = elim (Bool-cases (text_eq id y)) [
  | inl same ↦ rw (same, has-delete x id ids, text_eq-right id y x same) (ground arith)
  | inr other ↦ elim (Bool-cases (text_eq id x)) [
    | inl here ↦ rw (other, has-delete x id ids, text_eq-left id x y here, other, here) refl
    | inr there ↦ rw (other, has-delete x id ids, there) refl
  ]
]

pub has-set_from :
    (x : String) (seen : Ids) (ids : List String)
    → has (set_from seen ids) x ≡ (any (text_eq x) ids || has seen x)
has-set_from x seen [] = refl
has-set_from x seen (id ∷ ids) =
    has-set_from x (add seen id) ids ∙ rw (has-add x id seen) (ground arith)

pub has-filter :
    (x : String) (valid ids : Ids) → has (filter (has valid) ids) x ≡ (has valid x && has ids x)
has-filter x valid [] = ground arith
has-filter x valid (y ∷ ids) = elim (Bool-cases (text_eq x y)) [
  | inl same ↦ elim (Bool-cases (has valid y)) [
    | inl v ↦ rw (v, same, has-text_eq x y valid same, v) refl
    | inr n ↦ rw (n, has-filter x valid ids, same, has-text_eq x y valid same, n) refl
  ]
  | inr other ↦ elim (Bool-cases (has valid y)) [
    | inl v ↦ rw (v, other, has-filter x valid ids) refl
    | inr n ↦ rw (n, other, has-filter x valid ids) refl
  ]
]
