-- ===== src/Web/Api/Paths.antt =====
-- apps/web/src/api: whether a path with unknown parts is one of those that carry the admin key.
use Prim.Native.Char.{Char, code}
use Prim.Native.String.{◌++◌ as text_append}
use text.Mathlib.TextLemmas.{cons-append, nil-append}
use remodelator.Base.{
  ℕ, ◌≡◌, refl, ap, ◌∙◌, inl, inr, String, Bool, true, false, ◌==◌, arith, Bool-cases,
  if◌then◌else◌,
}
use remodelator.Base.Compare.{text_eq-true}
use remodelator.Base.Text.{text_eq}
use remodelator.Web.Client.{normalized_path, requires_admin_key_header, upper_is}

head_code : String → ℕ
head_code String.[] = 0
head_code (String.◌∷◌ c s) = code c

rest_of : String → String
rest_of String.[] = String.[]
rest_of (String.◌∷◌ c s) = s

normalized_path-cons :
    (c : Char) (p s : String)
    → (code c == b'?') ≡ false
    → normalized_path (text_append (String.◌∷◌ c p) s)
      ≡ String.◌∷◌ c (normalized_path (text_append p s))
unfolding normalized_path
normalized_path-cons c p s e = rw (cons-append, e) refl

heads-clash : (c d : Char) → (code c == code d) ≡ false → code c ≡ code d → ⊥
heads-clash c d h e = ground arith

-- no path that starts with the first text, before any query, is the second
abbrev differs : String → String → Bool
differs String.[] name = false
differs (String.◌∷◌ c p) String.[] = if code c == b'?' then false else true
differs (String.◌∷◌ c p) (String.◌∷◌ d name) =
    let rest = differs p name in
    if code c == b'?' then false else if code c == code d then rest else true

differs_sound :
    (p s name : String) → differs p name ≡ true → normalized_path (text_append p s) ≡ name → ⊥
differs_sound String.[] s name h e = cc
differs_sound (String.◌∷◌ c p) s String.[] h e = elim (Bool-cases (code c == b'?')) [
  | inl cut ↦ let h' = rw cut at h in cc
  | inr plain ↦ let e' = rw (normalized_path-cons c p s plain) at e in cc
]
differs_sound (String.◌∷◌ c p) s (String.◌∷◌ d name) h e = elim (Bool-cases (code c == b'?')) [
  | inl cut ↦ let h' = rw cut at h in cc
  | inr plain ↦
      let e' = rw (normalized_path-cons c p s plain) at e in
      elim (Bool-cases (code c == code d)) [
        | inl same ↦
            differs_sound p s name (rw (plain, same) at h) (unfold rest_of in ap rest_of e')
        | inr other ↦ absurd (heads-clash c d (other) (unfold head_code in ap head_code e'))
      ]
]

text_eq-differs :
    (p s name : String)
    → differs p name ≡ true
    → text_eq (normalized_path (text_append p s)) name ≡ false
text_eq-differs p s name h = elim (Bool-cases (text_eq (normalized_path (text_append p s)) name)) [
  | inr e ↦ e
  | inl e ↦ absurd (differs_sound p s name h (text_eq-true _ name e))
]

-- a path that starts with a text that is no start of the two
pub no_key-prefix :
    (p s : String)
    → differs p "/admin/demo-reset" ≡ true
    → differs p "/admin/audit-prune" ≡ true
    → requires_admin_key_header (text_append p s) "POST" ≡ false
unfolding requires_admin_key_header upper_is
no_key-prefix p s reset prune =
    rw
      (
        text_eq-differs p s "/admin/demo-reset" reset,
        text_eq-differs p s "/admin/audit-prune" prune,
      )
      refl

pub no_key-estimates :
    (s : String) → requires_admin_key_header (text_append "/estimates/" s) "POST" ≡ false
no_key-estimates s = no_key-prefix "/estimates/" s refl refl

pub no_key-proposals :
    (s : String) → requires_admin_key_header (text_append "/proposals/" s) "POST" ≡ false
no_key-proposals s = no_key-prefix "/proposals/" s refl refl

no_query : String → Bool
no_query String.[] = true
no_query (String.◌∷◌ c p) = if code c == b'?' then false else no_query p

normalized_path-append :
    (p s : String)
    → no_query p ≡ true
    → normalized_path (text_append p s) ≡ text_append p (normalized_path s)
unfolding no_query
normalized_path-append String.[] s h = rw (nil-append, nil-append) refl
normalized_path-append (String.◌∷◌ c p) s h = elim (Bool-cases (code c == b'?')) [
  | inl cut ↦ let h' = rw cut at h in cc
  | inr plain ↦
      normalized_path-cons c p s plain
      ∙ rw (normalized_path-append p s (rw plain at h), cons-append) refl
]

normalized_path-query : (s : String) → normalized_path (text_append "?" s) ≡ ""
unfolding normalized_path
normalized_path-query s = rw cons-append refl

pub needs_key-prune :
    (s : String)
    → requires_admin_key_header (text_append "/admin/audit-prune" (text_append "?" s)) "POST" ≡ true
unfolding requires_admin_key_header upper_is no_query
needs_key-prune s =
    rw
      (
        normalized_path-append "/admin/audit-prune" (text_append "?" s) refl,
        normalized_path-query s,
      )
      refl

-- the address of a page of an estimate is not that of the list
pub estimates-ne : (s : String) → text_eq (text_append "/estimates/" s) "/estimates" ≡ false
unfolding normalized_path
estimates-ne s = elim (Bool-cases (text_eq (text_append "/estimates/" s) "/estimates")) [
  | inr e ↦ e
  | inl e ↦ absurd (
      differs_sound "/estimates/" s "/estimates" refl
        (ap normalized_path (text_eq-true (text_append "/estimates/" s) "/estimates" e)))
]
