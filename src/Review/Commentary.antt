-- ===== src/Review/Commentary.antt =====
-- src/bluelab/modules/review/grading.py: the tests on commentary. What Python's Unicode tables
-- answer is a parameter.
use Prim.Native.Char.{Char, code}
use Prim.Native.String.{String, ◌++◌ as text_append}
use text.Mathlib.Text.{find?}
use bluelab_backend_prod.Prelude.{
  Bool, true, false, ◌&&◌, ◌||◌, not, Option, none, some, List, [], ◌∷◌, leb, is_some, str_eq,
  if◌then◌else◌,
}

pub record Unicode : Type 0 where
  -- unicodedata.normalize("NFKC", value)
  pub nfkc : String → String
  -- str.casefold
  pub casefold : String → String
  -- str.isspace of one character, which str.strip and str.split use
  pub is_space : Char → Bool

-- [\u0600-\u06ff\u0750-\u077f\u08a0-\u08ff]
abbrev pub is_arabic : Char → Bool
is_arabic c =
    (leb 0x600 (code c) && leb (code c) 0x6ff)
    || (leb 0x750 (code c) && leb (code c) 0x77f)
    || (leb 0x8a0 (code c) && leb (code c) 0x8ff)

-- _ARABIC.search(value)
unfoldable pub has_arabic : String → Bool
has_arabic String.[] = false
has_arabic (String.◌∷◌ c s) = is_arabic c || has_arabic s

-- not value.strip()
unfoldable pub is_blank : Unicode → String → Bool
is_blank u String.[] = true
is_blank u (String.◌∷◌ c s) = u.is_space c && is_blank u s

-- what `_require_english` accepts
unfoldable pub is_english : Unicode → Option String → Bool
unfolding has_arabic is_blank
is_english u none = false
is_english u (some value) = not (is_blank u value) && not (has_arabic value)

-- " ".join(value.split()): `started` once a word was written, `gap` if a space is due before
-- the next one
unfoldable pub squeeze : Unicode → Bool → Bool → String → String
squeeze u started gap String.[] = String.[]
squeeze u started gap (String.◌∷◌ c s) =
    let space = u.is_space c in
    let rest = squeeze u (started || not space) (space && started) s in
    if space then rest else if gap then text_append " " (String.◌∷◌ c rest) else String.◌∷◌ c rest

-- `_normalized`
unfoldable pub normalized : Unicode → String → String
unfolding squeeze
normalized u value = squeeze u false false (u.casefold (u.nfkc value))

-- needle in hay
unfoldable pub contains : String → String → Bool
contains hay needle = is_some (find? hay needle)

-- "\n".join(…)
unfoldable pub join_lines : List String → String
join_lines [] = ""
join_lines (s ∷ []) = s
join_lines (s ∷ t ∷ rest) = text_append s (text_append "\n" (join_lines (t ∷ rest)))

-- `x in {a, b, …}` of texts
abbrev pub elem_text : String → List String → Bool
elem_text s [] = false
elem_text s (t ∷ ts) = str_eq s t || elem_text s ts
