-- ===== src/Calls/Registry/Codec.antt =====
-- src/bluelab/calls/registry.py: a stored session reads back as it was written.
use bluelab_backend_prod.Prelude.{ℕ, ◌≡◌, refl, Option, none, some, ok}
use bluelab_backend_prod.Calls.Lease.{ParticipantKind, rep, candidate, author, kind_text, text_kind}
use bluelab_backend_prod.Calls.Json.{as_uuid_or_none, of_uuid}
use bluelab_backend_prod.Calls.Registry.{
  CallSession, SessionState, pending, established, terminal, state_text, text_state, Mode, attempt,
  test, mode_text, text_mode, AccountRole, manager, rep_role, role_json, as_role, of_number,
  as_number_or_none, encode, decode,
}

text_state-state_text : (s : SessionState) → text_state (state_text s) ≡ ok s
text_state-state_text pending = refl
text_state-state_text established = refl
text_state-state_text terminal = refl

text_mode-mode_text : (m : Mode) → text_mode (mode_text m) ≡ ok m
text_mode-mode_text attempt = refl
text_mode-mode_text test = refl

text_kind-kind_text : (k : ParticipantKind) → text_kind (kind_text k) ≡ ok k
text_kind-kind_text rep = refl
text_kind-kind_text candidate = refl
text_kind-kind_text author = refl

as_role-role_json : (r : Option AccountRole) → as_role (role_json r) ≡ ok r
as_role-role_json none = refl
as_role-role_json (some manager) = refl
as_role-role_json (some rep_role) = refl

as_number-of_number : (n : Option ℕ) → as_number_or_none (of_number n) ≡ ok n
as_number-of_number none = refl
as_number-of_number (some n) = refl

as_uuid-of_uuid : (i : Option ℕ) → as_uuid_or_none (of_uuid i) ≡ ok i
as_uuid-of_uuid none = refl
as_uuid-of_uuid (some i) = refl

-- Every session is read back from its stored form unchanged.
pub decode-encode_session : (c : CallSession) → decode (encode c) ≡ ok c
unfolding decode encode
decode-encode_session c =
    rw
      (
        as_uuid-of_uuid c.attempt_id,
        as_uuid-of_uuid c.stage_id,
        as_uuid-of_uuid c.position_id,
        text_state-state_text c.state,
        text_mode-mode_text c.mode,
        text_kind-kind_text c.participant_kind,
        as_number-of_number c.stage_ord,
        as_number-of_number c.stage_total,
        as_number-of_number c.capacity_slot,
        as_role-role_json c.account_role,
      )
      refl
