-- ===== src/Calls/Json.antt =====
-- The flat JSON objects that the call stores write and read back: what `json.dumps` and
-- `json.loads` carry. A UUID's text is kept as the id that it spells.
use bluelab_backend_prod.Prelude.{
  ℕ, String, str_eq, Bool, Option, none, some, List, [], ◌∷◌, if◌then◌else◌, Result, ok, err,
}

pub data Json : Type 0 where
  null : Json
  string : String → Json
  uuid : ℕ → Json
  number : ℕ → Json
  flag : Bool → Json

abbrev pub Fields : Type 0
Fields = List (String × Json)

-- KeyError, or a value of the wrong form
pub data DecodeError : Type 0 where
  missing malformed : DecodeError

-- value[name]
unfoldable pub field : String → Fields → Result DecodeError Json
field name [] = err missing
field name ((k, v) ∷ rest) = if str_eq k name then ok v else field name rest

-- UUID(value)
abbrev pub as_uuid : Json → Result DecodeError ℕ
as_uuid (uuid i) = ok i
as_uuid _ = err malformed

-- UUID(value) if value else None
abbrev pub as_uuid_or_none : Json → Result DecodeError (Option ℕ)
as_uuid_or_none null = ok none
as_uuid_or_none (uuid i) = ok (some i)
as_uuid_or_none _ = err malformed

abbrev pub as_text : Json → Result DecodeError String
as_text (string s) = ok s
as_text _ = err malformed

-- str(value) of an optional id
abbrev pub of_uuid : Option ℕ → Json
of_uuid none = null
of_uuid (some i) = uuid i
