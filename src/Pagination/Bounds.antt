-- ===== src/Pagination/Bounds.antt =====
-- src/bluelab/platform/http/pagination.py: what an accepted page request satisfies.
use bluelab_backend_prod.Prelude.{
  ◌≤◌, ◌≡◌, refl, true, Option, none, some, ok, err, arith, if◌then◌else◌, Result-cases, Bool-cases,
  inl, inr,
}
use bluelab_backend_prod.Prelude.Int.{ℤ}
use bluelab_backend_prod.Pagination.{
  Order, newest_first, oldest_first, same_order, order_text, text_order, Cursor, Transport,
  invalid_cursor, encode_cursor, payload_of, read_cursor, decode_cursor, PageRequest, parse,
  parse_cursor, fetch_limit,
}

text_order-order_text : (o : Order) → text_order (order_text o) ≡ ok o
text_order-order_text newest_first = refl
text_order-order_text oldest_first = refl

read_cursor-encode_cursor : (t : Transport) (c : Cursor) → read_cursor t (encode_cursor t c) ≡ ok c
unfolding read_cursor encode_cursor
read_cursor-encode_cursor t c =
    rw (t.unpack-pack (payload_of c), text_order-order_text c.order) refl

-- A cursor decodes to itself for the order it was made for, and is refused for any other.
pub decode_cursor-encode_cursor :
    (t : Transport) (c : Cursor) (expected : Order)
    → decode_cursor t (encode_cursor t c) expected
      ≡ (if same_order c.order expected then ok c else err invalid_cursor)
unfolding decode_cursor
decode_cursor-encode_cursor t c expected = ground (arith, read_cursor-encode_cursor t c)

-- A cursor that continues a page has the page's order.
pub IsOrdered : Order → Option Cursor → Type 0
IsOrdered order none = Unit
IsOrdered order (some c) = same_order c.order order ≡ true

-- An accepted request asks for 1 to 100 rows, fetches at most 101, and its cursor, if there is
-- one, was made for the same order.
pub parse_bounded :
    (t : Transport) (limit : Option ℤ) (cursor : Option t.Wire) (order : Order) {p : PageRequest}
    → parse t limit cursor order ≡ ok p
    → (1 ≤ p.limit)
      × (p.limit ≤ 100)
      × (fetch_limit p ≤ 101)
      × (p.order ≡ order)
      × IsOrdered p.order p.cursor
unfolding parse parse_cursor decode_cursor fetch_limit IsOrdered
parse_bounded t limit none order h = ground arith
parse_bounded t limit (some raw) order h = elim (Result-cases (read_cursor t raw)) [
  | inl (c, fine) ↦ elim (Bool-cases (t.is_empty raw)) [
    | inl blank ↦ ground arith
    | inr given ↦ ground arith
  ]
  | inr (e, bad) ↦ ground arith
]
