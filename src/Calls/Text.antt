-- ===== src/Calls/Text.antt =====
-- src/bluelab/platform/security/text.py. What Python's `unicodedata` answers is a parameter.
use Prim.Native.Char.{Char, code}
use Prim.Native.String.{String}
use bluelab_backend_prod.Prelude.{Bool, ◌||◌, not, ◌==◌, if◌then◌else◌}

pub record Unicode : Type 0 where
  -- unicodedata.normalize("NFKC", value)
  pub nfkc : String → String
  -- unicodedata.category(character).startswith("C")
  pub is_other : Char → Bool

-- character in "\n\t" or not …
abbrev pub is_safe : Unicode → Char → Bool
is_safe u c = (code c == 10) || (code c == 9) || not (u.is_other c)

pub strip : Unicode → String → String
strip u String.[] = String.[]
strip u (String.◌∷◌ c s) = let rest = strip u s in if is_safe u c then String.◌∷◌ c rest else rest

unfoldable pub safe_plain_text : Unicode → String → String
unfolding strip
safe_plain_text u value = strip u (u.nfkc value)
