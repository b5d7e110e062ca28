-- ===== src/Web/Format/Status.antt =====
-- `formatStatus` of apps/web/src/lib/formatters.ts, without its regular expressions: `\w` is a letter or a
-- digit of ASCII or "_", and `\b\w` is such a character that stands after none.
use Prim.Native.Char.{code}
use Prim.Native.String.{◌++◌ as text_append}
use remodelator.Base.{ℕ, String, Bool, false, not, ◌&&◌, ◌||◌, leb, ◌==◌, if◌then◌else◌}
use remodelator.Web.Builtins.{Builtins}

unfoldable pub is_word : ℕ → Bool
is_word c =
    (leb b'a' c && leb c b'z')
    || (leb b'A' c && leb c b'Z')
    || (leb b'0' c && leb c b'9')
    || c == b'_'

-- `replace(/_/g, ' ')`
unfoldable pub spaces : String → String
spaces String.[] = ""
spaces (String.◌∷◌ c s) =
    let rest = spaces s in if code c == b'_' then text_append " " rest else String.◌∷◌ c rest

module _ {N : Type 0} (num : Builtins N) where
  -- `replace(/\b\w/g, (c) => c.toUpperCase())`, with whether the character before is a `\w`
  unfoldable pub upper_words : Bool → String → String
  unfolding is_word
  upper_words after_word String.[] = ""
  upper_words after_word (String.◌∷◌ c s) =
      let rest = upper_words (is_word (code c)) s in
      if is_word (code c) && not after_word
      then text_append (num.to_upper_case (String.◌∷◌ c String.[])) rest
      else String.◌∷◌ c rest

  unfoldable pub format_status : String → String
  unfolding spaces upper_words
  format_status status = upper_words false (spaces status)
