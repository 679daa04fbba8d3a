-- ===== src/Calls/Registry.antt =====
-- src/bluelab/calls/registry.py: the active calls, and the slots of the configured capacity.
-- Scores of the two sorted sets are seconds; a method is given the time at which it runs.
pub mod Codec
pub mod Store
pub mod Capacity
mod Examples
use bluelab_backend_prod.Prelude.{
  ℕ, zero, suc, ◌+◌, ◌*◌, ◌≡◌, refl, String, str_eq, Bool, true, false, ◌&&◌, not, Option, none,
  some, List, [], ◌∷◌, ◌==◌, elem, is_some, if◌then◌else◌, Result, ok, err, ◌>>=◌, ◌>>◌,
}
use bluelab_backend_prod.Prelude.Equality.{Eq, nat_eq}
use bluelab_backend_prod.Valkey.{Keyspace, SortedSet}
use bluelab_backend_prod.Calls.Lease.{ParticipantKind, kind_text, text_kind}
use bluelab_backend_prod.Calls.Json.{
  Json, null, string, uuid, number, flag, Fields, DecodeError, malformed, field, as_uuid,
  as_uuid_or_none, as_text, of_uuid,
}

pub data SessionState : Type 0 where
  pending established terminal : SessionState

pub data Mode : Type 0 where
  attempt test : Mode

pub data AccountRole : Type 0 where
  manager rep_role : AccountRole

pub record CallSession : Type 0 where
  pub call_id : ℕ
  pub mode : Mode
  pub participant_kind : ParticipantKind
  pub participant_id : ℕ
  pub participant_identity : String
  pub participant_display_name : String
  pub org_id : ℕ
  pub team_id : ℕ
  pub drill_id : ℕ
  pub attempt_id : Option ℕ
  pub stage_id : Option ℕ
  pub stage_ord : Option ℕ
  pub stage_total : Option ℕ
  pub restart : Bool
  pub capacity_slot : Option ℕ
  pub position_id : Option ℕ
  pub account_role : Option AccountRole
  pub state : SessionState

abbrev pub is_terminal : SessionState → Bool
is_terminal terminal = true
is_terminal _ = false

abbrev pub is_pending : SessionState → Bool
is_pending pending = true
is_pending _ = false

abbrev pub state_text : SessionState → String
state_text pending = "pending"
state_text established = "established"
state_text terminal = "terminal"

-- SessionState(value)
abbrev pub text_state : String → Result DecodeError SessionState
text_state s =
    if str_eq s "pending"
    then ok pending
    else if str_eq s "established"
    then ok established
    else if str_eq s "terminal"
    then ok terminal
    else err malformed

abbrev pub mode_text : Mode → String
mode_text attempt = "attempt"
mode_text test = "test"

-- A Literal is not checked by the code; a text that is none is refused here.
abbrev pub text_mode : String → Result DecodeError Mode
text_mode s =
    if str_eq s "attempt" then ok attempt else if str_eq s "test" then ok test else err malformed

abbrev pub role_json : Option AccountRole → Json
role_json none = null
role_json (some manager) = string "manager"
role_json (some rep_role) = string "rep"

abbrev pub as_role : Json → Result DecodeError (Option AccountRole)
as_role null = ok none
as_role (string s) =
    if str_eq s "manager"
    then ok (some manager)
    else if str_eq s "rep"
    then ok (some rep_role)
    else err malformed
as_role _ = err malformed

abbrev pub of_number : Option ℕ → Json
of_number none = null
of_number (some n) = number n

abbrev pub as_number_or_none : Json → Result DecodeError (Option ℕ)
as_number_or_none null = ok none
as_number_or_none (number n) = ok (some n)
as_number_or_none _ = err malformed

abbrev pub as_flag : Json → Result DecodeError Bool
as_flag (flag b) = ok b
as_flag _ = err malformed

-- `CallRegistry._encode`
unfoldable pub encode : CallSession → Fields
encode c =
    ("call_id", uuid c.call_id)
    ∷ ("mode", string (mode_text c.mode))
    ∷ ("participant_kind", string (kind_text c.participant_kind))
    ∷ ("participant_id", uuid c.participant_id)
    ∷ ("participant_identity", string c.participant_identity)
    ∷ ("participant_display_name", string c.participant_display_name)
    ∷ ("org_id", uuid c.org_id)
    ∷ ("team_id", uuid c.team_id)
    ∷ ("drill_id", uuid c.drill_id)
    ∷ ("attempt_id", of_uuid c.attempt_id)
    ∷ ("stage_id", of_uuid c.stage_id)
    ∷ ("stage_ord", of_number c.stage_ord)
    ∷ ("stage_total", of_number c.stage_total)
    ∷ ("restart", flag c.restart)
    ∷ ("capacity_slot", of_number c.capacity_slot)
    ∷ ("position_id", of_uuid c.position_id)
    ∷ ("account_role", role_json c.account_role)
    ∷ ("state", string (state_text c.state))
    ∷ []

-- `CallRegistry._decode`
unfoldable pub decode : Fields → Result DecodeError CallSession
unfolding field
decode fields = do
  call_id ← as_uuid (← field "call_id" fields)
  participant_id ← as_uuid (← field "participant_id" fields)
  org_id ← as_uuid (← field "org_id" fields)
  team_id ← as_uuid (← field "team_id" fields)
  drill_id ← as_uuid (← field "drill_id" fields)
  attempt_id ← as_uuid_or_none (← field "attempt_id" fields)
  stage_id ← as_uuid_or_none (← field "stage_id" fields)
  position_id ← as_uuid_or_none (← field "position_id" fields)
  state ← text_state (← as_text (← field "state" fields))
  mode ← text_mode (← as_text (← field "mode" fields))
  kind ← text_kind (← as_text (← field "participant_kind" fields))
  identity ← as_text (← field "participant_identity" fields)
  name ← as_text (← field "participant_display_name" fields)
  stage_ord ← as_number_or_none (← field "stage_ord" fields)
  stage_total ← as_number_or_none (← field "stage_total" fields)
  restart ← as_flag (← field "restart" fields)
  capacity_slot ← as_number_or_none (← field "capacity_slot" fields)
  role ← as_role (← field "account_role" fields)
  ok (record {
    call_id = call_id;
    mode = mode;
    participant_kind = kind;
    participant_id = participant_id;
    participant_identity = identity;
    participant_display_name = name;
    org_id = org_id;
    team_id = team_id;
    drill_id = drill_id;
    attempt_id = attempt_id;
    stage_id = stage_id;
    stage_ord = stage_ord;
    stage_total = stage_total;
    restart = restart;
    capacity_slot = capacity_slot;
    position_id = position_id;
    account_role = role;
    state = state;
  })
