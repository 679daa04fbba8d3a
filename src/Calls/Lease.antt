-- ===== src/Calls/Lease.antt =====
-- src/bluelab/calls/lease.py: the single-live-call lease of a participant.
pub mod Codec
pub mod Exclusion
pub mod Quiet
pub mod Race
mod Examples
use bluelab_backend_prod.Prelude.{
  ℕ, String, str_eq, ◌≡◌, refl, ◌↔◌, Bool, true, false, not, Option, none, some, List, [], ◌∷◌,
  ◌==◌, if◌then◌else◌, Result, ok, err, ◌>>=◌, arith,
}
use bluelab_backend_prod.Prelude.Equality.{Eq}
use bluelab_backend_prod.Valkey.{Keyspace}
use bluelab_backend_prod.Calls.Json.{
  Json, null, string, uuid, Fields, DecodeError, malformed, field, as_uuid, as_uuid_or_none,
  as_text, of_uuid,
}

pub data LeaseState : Type 0 where
  pending established : LeaseState

pub data ParticipantKind : Type 0 where
  rep candidate author : ParticipantKind

pub record CallLease : Type 0 where
  pub participant_kind : ParticipantKind
  pub participant_id : ℕ
  pub call_id : ℕ
  pub attempt_id : Option ℕ
  pub state : LeaseState

-- `CallLease.pending`
pub pending_lease : ParticipantKind → ℕ → ℕ → Option ℕ → CallLease
pending_lease kind participant call attempt = record {
  participant_kind = kind;
  participant_id = participant;
  call_id = call;
  attempt_id = attempt;
  state = pending;
}

-- f"call:participant:{namespace}:{participant_id}"
pub data LeaseKey : Type 0 where
  account_key candidate_key : ℕ → LeaseKey

abbrev pub same_key : LeaseKey → LeaseKey → Bool
same_key (account_key i) (account_key j) = i == j
same_key (candidate_key i) (candidate_key j) = i == j
same_key _ _ = false

pub same_key_iff : (a b : LeaseKey) → (same_key a b ≡ true) ↔ (a ≡ b)
same_key_iff (account_key i) (account_key j) = (λ h. ground arith, λ h. ground arith)
same_key_iff (candidate_key i) (candidate_key j) = (λ h. ground arith, λ h. ground arith)
same_key_iff (account_key i) (candidate_key j) = (λ h. cc, λ h. cc)
same_key_iff (candidate_key i) (account_key j) = (λ h. cc, λ h. cc)

instance abbrev pub lease_key_eq : Eq LeaseKey
lease_key_eq = record { beq = same_key; beq_iff = same_key_iff }

-- `CallLeaseStore.key`
abbrev pub key : ParticipantKind → ℕ → LeaseKey
key candidate i = candidate_key i
key _ i = account_key i

abbrev pub kind_text : ParticipantKind → String
kind_text rep = "rep"
kind_text candidate = "candidate"
kind_text author = "author"

-- `cast` checks nothing; a text that is no kind is refused here
abbrev pub text_kind : String → Result DecodeError ParticipantKind
text_kind s =
    if str_eq s "rep"
    then ok rep
    else if str_eq s "candidate"
    then ok candidate
    else if str_eq s "author"
    then ok author
    else err malformed

abbrev pub state_text : LeaseState → String
state_text pending = "pending"
state_text established = "established"

-- LeaseState(value)
abbrev pub text_state : String → Result DecodeError LeaseState
text_state s =
    if str_eq s "pending"
    then ok pending
    else if str_eq s "established"
    then ok established
    else err malformed

-- `CallLeaseStore._encode`
pub encode : CallLease → Fields
encode l =
    ("participant_kind", string (kind_text l.participant_kind))
    ∷ ("participant_id", uuid l.participant_id)
    ∷ ("call_id", uuid l.call_id)
    ∷ ("attempt_id", of_uuid l.attempt_id)
    ∷ ("state", string (state_text l.state))
    ∷ []

-- `CallLeaseStore._decode`
pub decode : Fields → Result DecodeError CallLease
unfolding field
decode value = do
  kind ← as_text (← field "participant_kind" value)
  participant_kind ← text_kind kind
  participant_id ← as_uuid (← field "participant_id" value)
  call_id ← as_uuid (← field "call_id" value)
  attempt_id ← as_uuid_or_none (← field "attempt_id" value)
  state ← text_state (← as_text (← field "state" value))
  ok (record {
    participant_kind = participant_kind;
    participant_id = participant_id;
    call_id = call_id;
    attempt_id = attempt_id;
    state = state;
  })

-- One round of the WATCH loop of `release`: its time, what other clients do between the read and
-- EXEC, and whether that made EXEC fail.
pub record Round (S : Type 0) : Type 0 where
  pub at : ℕ
  pub meanwhile : S → S
  pub watch_error : Bool

module _ (ks : Keyspace LeaseKey Fields) (ttl_seconds : ℕ) where
  open ks use {Store, get, set, delete}

  -- SET NX EX
  pub acquire : Store → ℕ → CallLease → Store × Bool
  acquire s now lease =
      let k = key lease.participant_kind lease.participant_id in
      elim (get s now k) [
        | none ↦ (set s now k (encode lease) ttl_seconds, true)
        | some raw ↦ (s, false)
      ]

  pub current : Store → ℕ → ParticipantKind → ℕ → Result DecodeError (Option CallLease)
  current s now kind participant = elim (get s now (key kind participant)) [
    | none ↦ ok none
    | some raw ↦ decode raw >>= λ l. ok (some l)
  ]

  -- not (current is None or _decode(current).call_id != lease.call_id)
  pub holds : Store → ℕ → CallLease → Result DecodeError Bool
  holds s now lease = elim (get s now (key lease.participant_kind lease.participant_id)) [
    | none ↦ ok false
    | some raw ↦ decode raw >>= λ l. ok (l.call_id == lease.call_id)
  ]

  -- GET at `now`, then SET at `later`: what other clients do between is `meanwhile`.
  pub renew : Store → ℕ → (Store → Store) → ℕ → CallLease → Result DecodeError (Store × Bool)
  renew s now meanwhile later lease = do
    mine ← holds s now lease
    if mine
        then ok (
          set (meanwhile s) later (key lease.participant_kind lease.participant_id) (encode lease)
              ttl_seconds,
          true,
        )
        else ok (s, false)

  pub mark_established :
      Store → ℕ → (Store → Store) → ℕ → CallLease → Result DecodeError (Store × Bool)
  mark_established s now meanwhile later lease =
      renew s now meanwhile later (record lease { state = established })

  -- `none` means that the given rounds were all interrupted.
  pub release : Store → List (Round Store) → CallLease → Result DecodeError (Store × Option Bool)
  release s [] lease = ok (s, none)
  release s (r ∷ rounds) lease =
      let retry = release (r.meanwhile s) rounds lease in
      holds s r.at lease >>= λ mine.
      if mine
      then (if r.watch_error
          then retry
          else ok (
            delete (r.meanwhile s) r.at (key lease.participant_kind lease.participant_id),
            some true,
          ))
      else ok (s, some false)
