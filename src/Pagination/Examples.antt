-- ===== src/Pagination/Examples.antt =====
-- Runs of src/bluelab/platform/http/pagination.py that meet the hypotheses of its theorems.
use bluelab_backend_prod.Prelude.{◌≡◌, refl, false, some, ok}
use bluelab_backend_prod.Prelude.Int.{pos}
use bluelab_backend_prod.Calls.Json.{Fields}
use bluelab_backend_prod.Pagination.{
  newest_first, Cursor, Transport, encode_cursor, PageRequest, parse,
}

-- the fields travel as they are
abbrev direct : Transport
direct = record {
  Wire = Fields;
  is_empty = λ f. false;
  pack = λ f. f;
  unpack = λ f. ok f;
  unpack-pack = λ f. refl;
}

abbrev cursor : Cursor
cursor = record { after_id = 9; order = newest_first }

abbrev request : PageRequest
request = record { limit = 50; cursor = some cursor; order = newest_first }

parse_runs :
    parse direct (some (pos 50)) (some (encode_cursor direct cursor)) newest_first ≡ ok request
unfolding parse encode_cursor
parse_runs = refl
