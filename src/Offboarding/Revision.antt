-- ===== src/Offboarding/Revision.antt =====
-- src/bluelab/lifecycle/service.py: the revision of an organisation's retention policy.
use bluelab_backend_prod.Prelude.{
  ℕ, Bool, false, ◌&&◌, ◌||◌, not, Option, none, some, ◌==◌, find, is_none, is_some, same_id,
  Result, ok, ◌>>=◌, ◌>>◌, raise_if, or_raise, if◌then◌else◌,
}
use bluelab_backend_prod.Offboarding.{
  LifecycleAction, policy_revision, LifecycleEvent, LifecycleOperation, LifecycleOrder,
  LifecycleProblem, LifecycleTables, PolicyRow, RetentionPolicy, find_operation, has_pending,
  history_unverified, is_purging, policy_unverified, purge_already_claimed, reason_required,
}
use bluelab_backend_prod.Offboarding.Commands.{
  accept_operation, accepted_org, current_org, new_row, stage_command,
}
use bluelab_backend_prod.Offboarding.Renewal.{is_changed, is_elapsed, set_policy}
use bluelab_backend_prod.Subjects.{is_applied_op}

-- the contract and the policy of a revision
abbrev pub revision_data : LifecycleAction → Option (ℕ × RetentionPolicy)
revision_data (policy_revision contract policy) = some (contract, policy)
revision_data _ = none

-- a reference that the current policy has on other terms
unfoldable pub is_reused : ℕ → RetentionPolicy → Option PolicyRow → Bool
unfolding is_changed
is_reused contract p none = false
is_reused contract p (some row) =
    p.reference == row.policy.reference
    && (is_changed p row.policy || not (contract == row.contract_reference))

unfoldable pub new_revision :
    ℕ
    → RetentionPolicy
    → LifecycleOrder
    → LifecycleTables
    → Result LifecycleProblem LifecycleOperation
unfolding current_org has_pending is_reused new_row
new_revision contract p c t = do
  g ← current_org c t
  raise_if (is_purging g.lifecycle_status) purge_already_claimed
  raise_if (has_pending c.org_id t) history_unverified
  raise_if (not (is_elapsed p.period_unit) && not (same_id p.calendar_timezone (some g.timezone)))
      policy_unverified
  raise_if (p.reference == 0) policy_unverified
  raise_if (is_reused contract p (find (λ r. r.org == c.org_id) t.policies)) policy_unverified
  reason ← or_raise c.reason reason_required
  ok (new_row c none none reason (policy_revision contract p) none)

-- `prepare_policy_revision`
unfoldable pub prepare_policy_revision :
    ℕ
    → RetentionPolicy
    → LifecycleOrder
    → LifecycleTables
    → Result LifecycleProblem (LifecycleTables × LifecycleOperation)
unfolding stage_command new_revision
prepare_policy_revision contract p c t =
    stage_command c (λ o. is_some (revision_data o.action)) (new_revision contract p c t) t

-- `apply_policy_revision`
unfoldable pub apply_policy_revision :
    ℕ → LifecycleEvent → LifecycleTables → Result LifecycleProblem LifecycleTables
unfolding accepted_org accept_operation set_policy
apply_policy_revision id e t = do
  o ← or_raise (find_operation id t) history_unverified
  d ← or_raise (revision_data o.action) history_unverified
  if is_applied_op o.status
      then ok t
      else (accepted_org o e t >>= λ g.
          raise_if (is_none e.actor_id) history_unverified
          >> ok (record (accept_operation o e (λ x. x) t) {
            policies = set_policy o.org d.0 d.1 t.policies;
          }))
