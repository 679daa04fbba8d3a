-- ===== src/Offboarding.antt =====
-- src/bluelab/lifecycle: the service of an organisation, its offboarding and the claim of its purge
-- (service.py, restrictions.py and the claim of purge.py). Row locks make each call one step. Ids,
-- references and digests are numbers, times are those of Clock; the action of an operation and
-- its payload are one value. What only the audit carries is left out.
pub mod Commands
pub mod Terms
pub mod Renewal
pub mod Episode
pub mod Revision
pub mod Access
pub mod Restrictions
pub mod Claim
pub mod Fence
pub mod Staging
pub mod Settling
pub mod Steps
pub mod Upheld
pub mod Final
pub mod Late
mod Examples
use bluelab_backend_prod.Prelude.{
  ℕ, ◌+◌, Bool, true, false, ◌&&◌, ◌||◌, not, Option, none, some, List, [], ◌∷◌, ◌++◌, ◌==◌,
  same_id, any, find, if◌then◌else◌, Result, ok, err, ◌>>=◌, ◌>>◌, raise_if, or_raise,
}
use bluelab_backend_prod.Clock.{Calendar, Zone, ClockError, RetentionUnit}
use bluelab_backend_prod.Subjects.{
  OperationStatus, Request, is_pending_op, is_rejected_op, op_pending, op_applied, op_rejected,
  update_first,
}

pub data LifecycleStatus : Type 0 where
  active offboarding purging : LifecycleStatus

abbrev pub is_active : LifecycleStatus → Bool
is_active active = true
is_active _ = false

abbrev pub is_offboarding : LifecycleStatus → Bool
is_offboarding offboarding = true
is_offboarding _ = false

abbrev pub is_purging : LifecycleStatus → Bool
is_purging purging = true
is_purging _ = false

pub record Org : Type 0 where
  pub id : ℕ
  pub timezone : ℕ
  pub lifecycle_status : LifecycleStatus
  pub lifecycle_sequence : ℕ
  pub current_term : Option ℕ
  pub service_term_enforced : Bool
  pub service_starts_at : Option ℕ
  pub service_ends_at : Option ℕ
  pub offboarding_id : Option ℕ
  pub offboarding_started_at : Option ℕ
  pub offboarding_started_by : Option ℕ
  pub purge_eligible_at : Option ℕ
  pub policy_reference : Option ℕ

-- `OrgServiceTerm`
pub record Term : Type 0 where
  pub id : ℕ
  pub org : ℕ
  pub start_on : ℕ
  pub last_access_on : ℕ
  pub starts_at : ℕ
  pub ends_at : ℕ
  pub policy_reference : ℕ

-- A retention period: the `retention_policy` of a payload, and what a policy row has of it.
pub record RetentionPolicy : Type 0 where
  pub reference : ℕ
  pub period_value : ℕ
  pub period_unit : RetentionUnit
  pub calendar_timezone : Option ℕ

pub record PolicyRow : Type 0 where
  pub org : ℕ
  pub contract_reference : ℕ
  pub policy : RetentionPolicy

-- `command_payload` of a service term
pub record TermData : Type 0 where
  pub service_term_id : ℕ
  pub start_on : ℕ
  pub last_access_on : ℕ
  pub starts_at : ℕ
  pub ends_at : ℕ
  pub policy : RetentionPolicy
  pub policy_is_revision : Bool
  pub contract_reference : ℕ
  pub cancelled_offboarding_id : Option ℕ

-- `command_payload` of the start of an offboarding; `cutoff` is its cutoff and its deadline
pub record StartData : Type 0 where
  pub policy : RetentionPolicy
  pub cutoff : Option (ℕ × ℕ)

pub data LifecycleAction : Type 0 where
  confirm_term renew_term : TermData → LifecycleAction
  expire_term : ℕ → ℕ → ℕ → LifecycleAction
  start : StartData → LifecycleAction
  cancel : ℕ → LifecycleAction
  extend : ℕ → ℕ → LifecycleAction
  policy_revision : ℕ → RetentionPolicy → LifecycleAction
  create_restriction : Option ℕ → LifecycleAction
  release_restriction : LifecycleAction
  claim : ℕ → LifecycleAction

pub record LifecycleOperation : Type 0 where
  pub id : ℕ
  pub org : ℕ
  pub term : Option ℕ
  pub episode : Option ℕ
  pub restriction : Option ℕ
  pub action : LifecycleAction
  pub status : OperationStatus
  pub expected_sequence : ℕ
  pub resulting_sequence : Option ℕ
  pub actor : Option ℕ
  pub reason : ℕ
  pub requested_deadline : Option ℕ
  pub digest : Option ℕ

pub record DeletionRestriction : Type 0 where
  pub id : ℕ
  pub org : ℕ
  pub episode : Option ℕ
  pub is_active : Bool
  pub related_request : Option ℕ

pub record PurgeRun : Type 0 where
  pub id : ℕ
  pub org : ℕ
  pub episode : Option ℕ
  pub purge_eligible_at : Option ℕ

pub record LifecycleTables : Type 0 where
  pub orgs : List Org
  pub terms : List Term
  pub policies : List PolicyRow
  pub operations : List LifecycleOperation
  pub restrictions : List DeletionRestriction
  pub requests : List Request
  pub runs : List PurgeRun

pub data LifecycleProblem : Type 0 where
  not_found operation_id_reuse sequence_stale history_unverified : LifecycleProblem
  purge_already_claimed episode_stale term_invalid reason_required : LifecycleProblem
  policy_unverified purge_blocked no_result key_error : LifecycleProblem
  clock : ClockError → LifecycleProblem

-- The libraries of time and of ids that the decisions use: uuid5 of a term and of an episode.
pub record Library : Type 0 where
  pub calendar : Calendar
  pub zone : ℕ → Zone
  pub expiry_id : ℕ → ℕ → ℕ
  pub claim_id : ℕ → ℕ → ℕ
  pub run_id : ℕ → ℕ → ℕ

-- The inputs that each prepared command has; `fresh` is the next new id, and a blank reason is none.
pub record LifecycleOrder : Type 0 where
  pub org_id : ℕ
  pub operation_id : ℕ
  pub actor_id : ℕ
  pub expected_sequence : ℕ
  pub reason : Option ℕ
  pub digest : ℕ
  pub head_sequence : ℕ
  pub fresh : ℕ

-- An accepted event of the history; `matches` compares its action and data with an operation's.
pub record LifecycleEvent : Type 0 where
  pub operation_id : ℕ
  pub org_id : ℕ
  pub matches : LifecycleAction → Bool
  pub actor_id : Option ℕ
  pub reason : ℕ
  pub sequence : ℕ
  pub accepted_at : ℕ

abbrev pub find_org : ℕ → LifecycleTables → Option Org
find_org id t = find (λ g. g.id == id) t.orgs

abbrev pub find_operation : ℕ → LifecycleTables → Option LifecycleOperation
find_operation id t = find (λ o. o.id == id) t.operations

-- the current term of `lifecycle_projection`
unfoldable pub term_of : LifecycleTables → Org → Option Term
term_of t g = find (λ s. same_id (some s.id) g.current_term) t.terms

unfoldable pub has_pending : ℕ → LifecycleTables → Bool
has_pending org t = any (λ o. o.org == org && is_pending_op o.status) t.operations
