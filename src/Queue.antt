-- ===== src/Queue.antt =====
-- src/bluelab/platform/queue/compat.py: the envelope of a job, which workers of two releases read.
-- A body is its keys and values. A UUID is a number, what a lane puts in `args` is a parameter,
-- and `unreadable` is a string that is neither a number nor a UUID.
pub mod Window
pub mod Catalog
pub mod Worker
pub mod Delivery
mod Examples
use text.Mathlib.Text.{◌==◌ as text_eq}
use bluelab_backend_prod.Prelude.{
  ℕ, String, Bool, true, false, Option, none, some, List, [], ◌∷◌, ◌++◌, ltb, if◌then◌else◌, Result,
  ok, err, ◌>>=◌, ◌>>◌, raise_if,
}

pub data Value (A : Type 0) : Type 0 where
  null : Value A
  version : ℕ → Value A
  uuid : ℕ → Value A
  arguments : A → Value A
  unreadable : Value A

pub data EnvelopeError : Type 0 where
  incompatible_payload no_org value_error type_error : EnvelopeError

module _ (A : Type 0) where
  abbrev pub Body : Type 0
  Body = List (String × Value A)

  -- body.get(key)
  unfoldable pub get : String → Body → Option (Value A)
  get key [] = none
  get key ((k, v) ∷ rest) = let later = get key rest in if text_eq k key then some v else later

  pub record JobEnvelope : Type 0 where
    pub version : ℕ
    pub org_id : ℕ
    pub team_id : Option ℕ
    pub args : Option A

  abbrev pub team_entry : Option ℕ → Body
  team_entry none = []
  team_entry (some team) = ("team_id", uuid team) ∷ []

  -- `envelope`
  unfoldable pub envelope : A → ℕ → Option ℕ → Body
  envelope payload org team =
      ("v", version 1) ∷ ("org_id", uuid org) ∷ ("args", arguments payload) ∷ team_entry team

  -- int(body.get("v", 1))
  abbrev pub version_of : Option (Value A) → Result EnvelopeError ℕ
  version_of none = ok 1
  version_of (some (version n)) = ok n
  version_of (some null) = err type_error
  version_of (some (uuid n)) = err value_error
  version_of (some (arguments a)) = err type_error
  version_of (some unreadable) = err value_error

  -- UUID(str(raw_org))
  abbrev pub org_of : Option (Value A) → Result EnvelopeError ℕ
  org_of none = err no_org
  org_of (some null) = err no_org
  org_of (some (version n)) = err value_error
  org_of (some (uuid n)) = ok n
  org_of (some (arguments a)) = err value_error
  org_of (some unreadable) = err value_error

  abbrev pub team_of : Option (Value A) → Result EnvelopeError (Option ℕ)
  team_of none = ok none
  team_of (some null) = ok none
  team_of (some (version n)) = err value_error
  team_of (some (uuid n)) = ok (some n)
  team_of (some (arguments a)) = err value_error
  team_of (some unreadable) = err value_error

  -- dict(body.get("args", {})); `none` is the empty dictionary
  abbrev pub args_of : Option (Value A) → Result EnvelopeError (Option A)
  args_of none = ok none
  args_of (some (arguments a)) = ok (some a)
  args_of (some null) = err type_error
  args_of (some (version n)) = err type_error
  args_of (some (uuid n)) = err value_error
  args_of (some unreadable) = err value_error

  -- `read`
  unfoldable pub read : Body → Result EnvelopeError JobEnvelope
  unfolding get
  read body = do
    n ← version_of (get "v" body)
    raise_if (ltb 1 n) incompatible_payload
    org ← org_of (get "org_id" body)
    team ← team_of (get "team_id" body)
    args ← args_of (get "args" body)
    ok (record { version = n; org_id = org; team_id = team; args = args })
