-- ===== src/Base/Compare.antt =====
-- Texts compared by `===`: equal ones compare alike.
use mathlib.Core.Path.{◌≡◌, refl, sym}
use mathlib.Core.Logic.{inl, inr}
use mathlib.Core.Bool.{true}
use Prim.Native.String.{String}
use remodelator.Base.Tests.{Bool-cases}
use remodelator.Base.Text.{text_eq, text_eq_iff}

pub text_eq-true : (a b : String) → text_eq a b ≡ true → a ≡ b
text_eq-true a b e = (text_eq_iff a b).0 e

pub text_eq-sym : (a b : String) → text_eq a b ≡ text_eq b a
text_eq-sym a b = elim (Bool-cases (text_eq a b)) [
  | inl same ↦ rw (text_eq-true a b same) refl
  | inr other ↦ elim (Bool-cases (text_eq b a)) [
    | inl same ↦ rw (text_eq-true b a same) refl
    | inr other' ↦ cc
  ]
]

pub text_eq-left : (a b c : String) → text_eq a b ≡ true → text_eq b c ≡ text_eq a c
text_eq-left a b c e = rw (text_eq-true a b e) refl

pub text_eq-to : (a b c : String) → text_eq a b ≡ true → text_eq c a ≡ text_eq c b
text_eq-to a b c e = rw (text_eq-true a b e) refl

pub text_eq-right : (a b c : String) → text_eq a b ≡ true → text_eq c b ≡ text_eq a c
text_eq-right a b c e = rw (sym (text_eq-true a b e)) (text_eq-sym c a)
