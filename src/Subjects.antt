-- ===== src/Subjects.antt =====
-- src/bluelab/lifecycle/subject_states.py: the decisions of operators on requests of erasure and of
-- export. The row locks make each call one step. The digest of a command, the payload's text for
-- an event, the ledger and the fresh ids are parameters; the two request tables are one, with the
-- kind of each row, and the fields that only the audit carries are left out.
pub mod Prepare
pub mod Apply
pub mod Moves
pub mod Replay
pub mod Runs
mod Examples
use bluelab_backend_prod.Prelude.{
  ℕ, ◌+◌, Bool, true, false, ◌&&◌, ◌||◌, not, Option, none, some, List, [], ◌∷◌, ◌++◌, ◌==◌,
  same_id, any, find, if◌then◌else◌, Result, ok, err, ◌>>=◌, ◌>>◌, raise_if, or_raise,
}

pub data RequestKind : Type 0 where
  erasure export : RequestKind

pub data RequestStatus : Type 0 where
  pending processing awaiting_input ready failed executed : RequestStatus
  rejected withdrawn delivered : RequestStatus

-- Statuses and kinds by their place in the list, to compare them.
abbrev pub status_code : RequestStatus → ℕ
status_code pending = 0
status_code processing = 1
status_code awaiting_input = 2
status_code ready = 3
status_code failed = 4
status_code executed = 5
status_code rejected = 6
status_code withdrawn = 7
status_code delivered = 8

abbrev pub same_status : RequestStatus → RequestStatus → Bool
same_status a b = status_code a == status_code b

abbrev pub same_kind : RequestKind → RequestKind → Bool
same_kind erasure erasure = true
same_kind export export = true
same_kind _ _ = false

-- `_TERMINAL`
abbrev pub is_terminal : RequestStatus → Bool
is_terminal rejected = true
is_terminal withdrawn = true
is_terminal delivered = true
is_terminal _ = false

-- old in {"pending", "awaiting_input", "failed"}
abbrev pub is_resting : RequestStatus → Bool
is_resting pending = true
is_resting awaiting_input = true
is_resting failed = true
is_resting _ = false

abbrev pub is_export : RequestKind → Bool
is_export export = true
is_export erasure = false

-- `_allowed`
unfoldable pub allowed : RequestKind → RequestStatus → RequestStatus → Bool
allowed kind old awaiting_input = same_status old pending || same_status old failed
allowed kind old pending = same_status old awaiting_input || same_status old failed
allowed kind old delivered = is_export kind && same_status old ready
allowed kind old rejected = is_resting old || (is_export kind && same_status old ready)
allowed kind old withdrawn = is_resting old || (is_export kind && same_status old ready)
allowed kind old _ = false

pub record Request : Type 0 where
  pub id : ℕ
  pub org : ℕ
  pub kind : RequestKind
  pub status : RequestStatus
  pub restriction : Option ℕ
  pub has_bundle : Bool
  pub response_due_at : Option ℕ
  pub closed_at : Option ℕ
  pub delivered_at : Option ℕ

pub record Restriction : Type 0 where
  pub id : ℕ
  pub org : ℕ
  pub is_active : Bool
  pub related_request : Option ℕ

pub record Command : Type 0 where
  pub expected_status : RequestStatus
  pub status : RequestStatus
  pub reason : ℕ

pub data OperationStatus : Type 0 where
  op_pending op_applied op_rejected : OperationStatus

abbrev pub is_pending_op : OperationStatus → Bool
is_pending_op op_pending = true
is_pending_op _ = false

abbrev pub is_rejected_op : OperationStatus → Bool
is_rejected_op op_rejected = true
is_rejected_op _ = false

abbrev pub is_applied_op : OperationStatus → Bool
is_applied_op op_applied = true
is_applied_op _ = false

pub data OperationAction : Type 0 where
  set_subject_request_state release_restriction another_action : OperationAction

abbrev pub is_decision : OperationAction → Bool
is_decision another_action = false
is_decision _ = true

-- `command_payload`
pub record Payload : Type 0 where
  pub kind : RequestKind
  pub request_id : ℕ
  pub expected_status : RequestStatus
  pub status : RequestStatus
  pub response_due_at : Option ℕ
  pub is_queued : Bool

pub record Operation : Type 0 where
  pub id : ℕ
  pub org : ℕ
  pub action : OperationAction
  pub status : OperationStatus
  pub expected_sequence : ℕ
  pub resulting_sequence : Option ℕ
  pub actor : ℕ
  pub reason : ℕ
  pub restriction : ℕ
  pub payload : Payload
  pub digest : ℕ

pub record Org : Type 0 where
  pub id : ℕ
  pub lifecycle_sequence : ℕ

pub record Tables : Type 0 where
  pub orgs : List Org
  pub requests : List Request
  pub restrictions : List Restriction
  pub operations : List Operation
  pub queue : List (RequestKind × ℕ)

pub data StateProblem : Type 0 where
  not_found operation_id_reuse sequence_stale history_unverified : StateProblem

unfoldable pub find_request : RequestKind → ℕ → List Request → Option Request
find_request kind id rows = find (λ r. r.id == id && same_kind r.kind kind) rows

-- An update of the first row that passes a test.
unfoldable pub update_first {ℓ} : {A : Type ℓ} → (A → Bool) → (A → A) → List A → List A
update_first p f [] = []
update_first p f (x ∷ xs) = let rest = update_first p f xs in if p x then f x ∷ xs else x ∷ rest
