-- ===== src/Pagination.antt =====
-- src/bluelab/platform/http/pagination.py: opaque cursors and bounded pages. Base64 over JSON is a
-- parameter.
pub mod Bounds
mod Examples
use bluelab_backend_prod.Prelude.{
  ℕ, ◌+◌, ◌≡◌, String, str_eq, Bool, true, false, ◌&&◌, not, Option, none, some, List, [], ◌∷◌,
  ◌==◌, if◌then◌else◌, Result, ok, err, ◌>>=◌, ◌>>◌, raise_if,
}
use bluelab_backend_prod.Prelude.Int.{ℤ, pos, pos_part, leb_ℤ}
use bluelab_backend_prod.Calls.Json.{
  Json, string, uuid, number, Fields, DecodeError, malformed, field, as_uuid, as_text,
}

pub data Order : Type 0 where
  newest_first oldest_first : Order

abbrev pub order_text : Order → String
order_text newest_first = "desc"
order_text oldest_first = "asc"

-- Order(value)
abbrev pub text_order : String → Result DecodeError Order
text_order s =
    if str_eq s "desc"
    then ok newest_first
    else if str_eq s "asc"
    then ok oldest_first
    else err malformed

abbrev pub same_order : Order → Order → Bool
same_order newest_first newest_first = true
same_order oldest_first oldest_first = true
same_order _ _ = false

pub record Cursor : Type 0 where
  pub after_id : ℕ
  pub order : Order

-- The opaque texts: urlsafe_b64encode(json.dumps(…)) without its padding, and back.
pub record Transport : Type 1 where
  pub Wire : Type 0
  pub is_empty : Wire → Bool
  pub pack : Fields → Wire
  pub unpack : Wire → Result DecodeError Fields
  pub unpack-pack : (f : Fields) → unpack (pack f) ≡ ok f

pub data PageError : Type 0 where
  invalid_limit invalid_cursor : PageError

abbrev pub cursor_version : ℕ
cursor_version = 1

-- what `Cursor.encode` dumps
abbrev pub payload_of : Cursor → Fields
payload_of c =
    ("v", number cursor_version) ∷ ("id", uuid c.after_id) ∷ ("o", string (order_text c.order)) ∷ []

-- `Cursor.encode`
unfoldable pub encode_cursor : (t : Transport) → Cursor → t.Wire
encode_cursor t c = t.pack (payload_of c)

-- payload["v"] != _CURSOR_VERSION
abbrev pub check_version : Json → Result DecodeError (Unit {0})
check_version (number v) = raise_if (not (v == cursor_version)) malformed
check_version _ = err malformed

-- the `try` of `Cursor.decode`
unfoldable pub read_cursor : (t : Transport) → t.Wire → Result DecodeError Cursor
unfolding field
read_cursor t raw = do
  payload ← t.unpack raw
  version ← field "v" payload
  check_version version
  order ← text_order (← as_text (← field "o" payload))
  after_id ← as_uuid (← field "id" payload)
  ok (record { after_id = after_id; order = order })

-- `Cursor.decode`
unfoldable pub decode_cursor : (t : Transport) → t.Wire → Order → Result PageError Cursor
unfolding read_cursor
decode_cursor t raw expected_order = elim (read_cursor t raw) [
  | err e ↦ err invalid_cursor
  | ok c ↦ if same_order c.order expected_order then ok c else err invalid_cursor
]

pub record PageRequest : Type 0 where
  pub limit : ℕ
  pub cursor : Option Cursor
  pub order : Order

-- Cursor.decode(…) if cursor else None
unfoldable pub parse_cursor :
    (t : Transport) → Option t.Wire → Order → Result PageError (Option Cursor)
unfolding decode_cursor
parse_cursor t none order = ok none
parse_cursor t (some raw) order =
    if t.is_empty raw then ok none else decode_cursor t raw order >>= λ c. ok (some c)

-- `PageRequest.parse`
unfoldable pub parse :
    (t : Transport) → Option ℤ → Option t.Wire → Order → Result PageError PageRequest
unfolding parse_cursor
parse t limit cursor order = do
  let effective : ℤ = elim limit [ none ↦ pos 25 | some l ↦ l ]
  raise_if (not (leb_ℤ (pos 1) effective && leb_ℤ effective (pos 100))) invalid_limit
  decoded ← parse_cursor t cursor order
  ok (record { limit = pos_part effective; cursor = decoded; order = order })

unfoldable pub fetch_limit : PageRequest → ℕ
fetch_limit p = p.limit + 1
