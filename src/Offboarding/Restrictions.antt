-- ===== src/Offboarding/Restrictions.antt =====
-- src/bluelab/lifecycle/restrictions.py: restrictions that keep an organisation from deletion.
pub mod Kept
use bluelab_backend_prod.Prelude.{
  ℕ, Bool, true, false, ◌&&◌, ◌||◌, not, Option, none, some, List, [], ◌∷◌, ◌++◌, ◌==◌, is_none,
  same_id, any, find, if◌then◌else◌, Result, ok, ◌>>=◌, ◌>>◌, raise_if, or_raise,
}
use bluelab_backend_prod.Offboarding.{
  LifecycleAction, create_restriction, release_restriction, DeletionRestriction, LifecycleEvent,
  LifecycleOperation, LifecycleProblem, not_found, history_unverified, sequence_stale,
  episode_stale, reason_required, no_result, LifecycleTables, LifecycleOrder, Org, is_active,
  find_operation, has_pending,
}
use bluelab_backend_prod.Offboarding.Commands.{
  accepted_org, current_org, new_row, accept_operation, stage_command,
}
use bluelab_backend_prod.Subjects.{
  Request, executed, rejected, withdrawn, delivered, is_applied_op, is_export, update_first,
}

abbrev pub is_create : LifecycleAction → Bool
is_create (create_restriction r) = true
is_create _ = false

abbrev pub is_release : LifecycleAction → Bool
is_release release_restriction = true
is_release _ = false

-- the erasure or export of an organisation with an id
abbrev pub is_request_of : ℕ → ℕ → Request → Bool
is_request_of org id r = r.id == id && r.org == org

-- the status that a request leaves a restriction free in
abbrev pub is_settled : Request → Bool
is_settled r = elim r.status [
  | executed ↦ not (is_export r.kind)
  | delivered ↦ is_export r.kind
  | rejected ↦ true
  | withdrawn ↦ true
  | _ ↦ false
]

-- The checks on the request that a new restriction is for.
unfoldable pub check_related : ℕ → Option ℕ → LifecycleTables → Result LifecycleProblem (Unit {0})
check_related org none t = ok tt
check_related org (some id) t = do
  raise_if (any (λ r. r.org == org && same_id r.related_request (some id)) t.restrictions)
      sequence_stale
  raise_if (not (any (is_request_of org id) t.requests)) not_found

unfoldable pub new_creation :
    ℕ → Option ℕ → LifecycleOrder → LifecycleTables → Result LifecycleProblem LifecycleOperation
unfolding current_org has_pending check_related new_row
new_creation episode related c t = do
  g ← current_org c t
  raise_if (not (same_id g.offboarding_id (some episode)) || is_active g.lifecycle_status)
      episode_stale
  raise_if (has_pending c.org_id t) history_unverified
  check_related c.org_id related t
  reason ← or_raise c.reason reason_required
  ok (record (new_row c none (some episode) reason (create_restriction related) none) {
    restriction = some c.fresh;
  })

-- `prepare_create`
unfoldable pub prepare_create :
    ℕ
    → Option ℕ
    → LifecycleOrder
    → LifecycleTables
    → Result LifecycleProblem (LifecycleTables × LifecycleOperation)
unfolding stage_command new_creation
prepare_create episode related c t =
    stage_command c (λ o. is_create o.action) (new_creation episode related c t) t

-- The checks on the request that a restriction was for.
unfoldable pub check_resolved : ℕ → Option ℕ → LifecycleTables → Result LifecycleProblem (Unit {0})
check_resolved org none t = ok tt
check_resolved org (some id) t = do
  raise_if (not (any (is_request_of org id) t.requests)) history_unverified
  raise_if (any (λ r. is_request_of org id r && not (is_settled r)) t.requests) sequence_stale

abbrev pub is_restriction_of : ℕ → ℕ → DeletionRestriction → Bool
is_restriction_of org id r = r.id == id && r.org == org

unfoldable pub new_release :
    ℕ → LifecycleOrder → LifecycleTables → Result LifecycleProblem LifecycleOperation
unfolding current_org has_pending check_resolved new_row
new_release id c t = do
  g ← current_org c t
  raise_if (has_pending c.org_id t) history_unverified
  r ← or_raise (find (is_restriction_of c.org_id id) t.restrictions) not_found
  raise_if (not r.is_active) sequence_stale
  check_resolved c.org_id r.related_request t
  reason ← or_raise c.reason reason_required
  ok (record (new_row c none g.offboarding_id reason release_restriction none) {
    restriction = some id;
  })

-- `prepare_release`
unfoldable pub prepare_release :
    ℕ
    → LifecycleOrder
    → LifecycleTables
    → Result LifecycleProblem (LifecycleTables × LifecycleOperation)
unfolding stage_command new_release
prepare_release id c t =
    stage_command c (λ o. is_release o.action && same_id o.restriction (some id))
      (new_release id c t) t

-- The writes of `apply` on the restrictions, with the checks that stand between them.
unfoldable pub write_restriction :
    LifecycleOperation
    → ℕ
    → Org
    → LifecycleTables
    → Result LifecycleProblem (List DeletionRestriction)
unfolding update_first
write_restriction o id g t = elim o.action [
  | create_restriction related ↦
      raise_if (not (same_id g.offboarding_id o.episode)) history_unverified
      >> ok (
          t.restrictions
          ++ (record {
            id = id;
            org = g.id;
            episode = g.offboarding_id;
            is_active = true;
            related_request = related;
          })
            ∷ [])
  | _ ↦ or_raise (find (is_restriction_of g.id id) t.restrictions) history_unverified >>= λ r.
      raise_if (not r.is_active) history_unverified
      >> ok (
          update_first (is_restriction_of g.id id) (λ x. record x { is_active = false })
            t.restrictions)
]

-- `apply` of a restriction or of its release, with the id that it returns
unfoldable pub apply_restriction :
    ℕ → LifecycleEvent → LifecycleTables → Result LifecycleProblem (LifecycleTables × ℕ)
unfolding accepted_org write_restriction accept_operation
apply_restriction op e t = do
  o ← or_raise (find_operation op t) history_unverified
  raise_if (not (is_create o.action || is_release o.action)) history_unverified
  id ← or_raise o.restriction no_result
  if is_applied_op o.status
      then ok (t, id)
      else (accepted_org o e t >>= λ g.
          raise_if (is_none e.actor_id) history_unverified
          >> (write_restriction o id g t >>= λ rows.
              ok (record (accept_operation o e (λ x. x) t) { restrictions = rows }, id)))
