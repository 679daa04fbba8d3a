-- ===== src/Calls/Egress.antt =====
-- src/bluelab/calls/egress.py: who starts the recording of a call, and how its outcome is applied.
-- The start of an egress itself is a call of the media service.
pub mod Reconcile
mod Examples
use bluelab_backend_prod.Prelude.{
  ℕ, String, str_eq, ◌≡◌, ◌↔◌, Bool, true, false, ◌&&◌, not, Option, none, some, List, [], ◌∷◌,
  ◌++◌, ◌==◌, any, find, if◌then◌else◌, arith,
}
use bluelab_backend_prod.Prelude.Equality.{Eq}
use bluelab_backend_prod.Valkey.{Keyspace}
use bluelab_backend_prod.Calls.Database.{
  Attempt, Status, RecordingStatus, pending_upload, available, unavailable,
}
use bluelab_backend_prod.Calls.Registry.{CallSession}

-- f"call:egress:{call_id}" and f"call:egress-outcome:{call_id}"
pub data EgressKey : Type 0 where
  id_key outcome_key : ℕ → EgressKey

abbrev pub same_key : EgressKey → EgressKey → Bool
same_key (id_key i) (id_key j) = i == j
same_key (outcome_key i) (outcome_key j) = i == j
same_key _ _ = false

pub same_key_iff : (a b : EgressKey) → (same_key a b ≡ true) ↔ (a ≡ b)
same_key_iff (id_key i) (id_key j) = (λ h. ground arith, λ h. ground arith)
same_key_iff (outcome_key i) (outcome_key j) = (λ h. ground arith, λ h. ground arith)
same_key_iff (id_key i) (outcome_key j) = (λ h. cc, λ h. cc)
same_key_iff (outcome_key i) (id_key j) = (λ h. cc, λ h. cc)

instance abbrev pub egress_key_eq : Eq EgressKey
egress_key_eq = record { beq = same_key; beq_iff = same_key_iff }

module _ (ks : Keyspace EgressKey String) (ttl_seconds : ℕ) where
  open ks use {Store, get, set, delete}

  -- `EgressRegistry.claim_start`: SET NX EX
  unfoldable pub claim_start : Store → ℕ → CallSession → Store × Bool
  claim_start s now call = elim (get s now (id_key call.call_id)) [
    | none ↦ (set s now (id_key call.call_id) "starting" ttl_seconds, true)
    | some held ↦ (s, false)
  ]

  unfoldable pub started : Store → ℕ → CallSession → String → Store
  started s now call egress_id = set s now (id_key call.call_id) egress_id ttl_seconds

  -- GET at `now`, DEL at `later`; `meanwhile` is what other clients do between.
  unfoldable pub release_start : Store → ℕ → (Store → Store) → ℕ → CallSession → Store
  release_start s now meanwhile later call = elim (get s now (id_key call.call_id)) [
    | none ↦ s
    | some held ↦
        if str_eq held "starting" then delete (meanwhile s) later (id_key call.call_id) else s
  ]

  -- expected and expected != "starting" and expected == egress_id
  unfoldable pub matches : Store → ℕ → CallSession → String → Bool
  matches s now call egress_id = elim (get s now (id_key call.call_id)) [
    | none ↦ false
    | some expected ↦
        not (str_eq expected "") && not (str_eq expected "starting") && str_eq expected egress_id
  ]

  unfoldable pub set_outcome : Store → ℕ → CallSession → Bool → Store
  set_outcome s now call is_available =
      set s now (outcome_key call.call_id) (if is_available then "available" else "unavailable")
        ttl_seconds

  unfoldable pub outcome_of : Store → ℕ → CallSession → Option Bool
  outcome_of s now call = elim (get s now (outcome_key call.call_id)) [
    | none ↦ none
    | some value ↦
        if str_eq value "available"
        then some true
        else if str_eq value "unavailable"
        then some false
        else none
  ]

-- An open `ops_fault` of kind `playback_asset`, or a closed one.
pub record PlaybackFault : Type 0 where
  pub id : ℕ
  pub org : ℕ
  pub attempt : ℕ
  pub is_open : Bool

pub record RecordingDb : Type 0 where
  pub attempts : List Attempt
  pub faults : List PlaybackFault

abbrev pub is_pending : RecordingStatus → Bool
is_pending pending_upload = true
is_pending _ = false

-- id=:attempt and recording_status='pending'
unfoldable pub awaits : ℕ → Attempt → Bool
awaits attempt a = a.id == attempt && is_pending a.recording_status

unfoldable pub set_recording : ℕ → RecordingStatus → List Attempt → List Attempt
unfolding awaits
set_recording attempt state [] = []
set_recording attempt state (a ∷ rest) =
    (if awaits attempt a then record a { recording_status = state } else a)
    ∷ set_recording attempt state rest

-- insert into ops_fault … where not exists (an open one)
unfoldable pub open_fault : ℕ → ℕ → ℕ → List PlaybackFault → List PlaybackFault
open_fault id org attempt faults =
    if any (λ f. f.attempt == attempt && f.is_open) faults
    then faults
    else faults ++ record { id = id; org = org; attempt = attempt; is_open = true } ∷ []

unfoldable pub reconcile_recording : ℕ → CallSession → Bool → RecordingDb → RecordingDb × Bool
unfolding set_recording open_fault
reconcile_recording fault_id call is_available db = elim call.attempt_id [
  | none ↦ (db, false)
  | some attempt ↦
      let state : RecordingStatus = if is_available then available else unavailable in
      if any (awaits attempt) db.attempts
      then (
        record db {
          attempts = set_recording attempt state db.attempts;
          faults =
              if is_available then db.faults else open_fault fault_id call.org_id attempt db.faults;
        },
        true,
      )
      else (db, false)
]

unfoldable pub attempt_status : CallSession → List Attempt → Option Status
attempt_status call attempts = elim call.attempt_id [
  | none ↦ none
  | some attempt ↦ elim (find (λ a. a.id == attempt) attempts) [
    | none ↦ none
    | some a ↦ some a.status
  ]
]

unfoldable pub recording_status_of : CallSession → List Attempt → Option RecordingStatus
recording_status_of call attempts = elim call.attempt_id [
  | none ↦ none
  | some attempt ↦ elim (find (λ a. a.id == attempt) attempts) [
    | none ↦ none
    | some a ↦ some a.recording_status
  ]
]
