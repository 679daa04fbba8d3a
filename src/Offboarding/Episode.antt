-- ===== src/Offboarding/Episode.antt =====
-- src/bluelab/lifecycle/service.py: starting an offboarding early, fixing its cutoff, cancelling it,
-- and extending its deadline.
use bluelab_backend_prod.Prelude.{
  ℕ, Bool, true, false, ◌&&◌, ◌||◌, not, Option, none, some, ◌==◌, ltb, leb, is_none, is_some,
  same_id, if◌then◌else◌, Result, ok, ◌>>=◌, ◌>>◌, raise_if, or_raise,
}
use bluelab_backend_prod.Offboarding.{
  LifecycleAction, start, cancel, extend, Library, LifecycleEvent, LifecycleOperation,
  LifecycleProblem, history_unverified, purge_already_claimed, episode_stale, term_invalid,
  reason_required, LifecycleTables, LifecycleOrder, Org, StartData, Term, active, offboarding,
  is_active, is_offboarding, is_purging, find_operation, find_org, has_pending, term_of,
}
use bluelab_backend_prod.Offboarding.Commands.{
  accepted_org, current_org, new_row, accept_operation, stage_command,
}
use bluelab_backend_prod.Offboarding.Terms.{deadline_of, term_policy, timed}
use bluelab_backend_prod.Subjects.{is_applied_op, is_pending_op, op_rejected, update_first}

abbrev pub start_data : LifecycleAction → Option StartData
start_data (start d) = some d
start_data _ = none

abbrev pub is_cancel : LifecycleAction → Bool
is_cancel (cancel e) = true
is_cancel _ = false

-- the old and the new deadline
abbrev pub extension_data : LifecycleAction → Option (ℕ × ℕ)
extension_data (extend old new) = some (old, new)
extension_data _ = none

unfoldable pub new_start :
    ℕ → LifecycleOrder → LifecycleTables → Result LifecycleProblem LifecycleOperation
unfolding current_org has_pending term_of term_policy new_row
new_start now c t = do
  g ← current_org c t
  raise_if (is_purging g.lifecycle_status) purge_already_claimed
  raise_if (not (is_active g.lifecycle_status)) episode_stale
  s ← or_raise (term_of t g) episode_stale
  service_end ← or_raise g.service_ends_at episode_stale
  raise_if (leb service_end now) term_invalid
  raise_if (has_pending c.org_id t) history_unverified
  policy ← term_policy t s
  reason ← or_raise c.reason reason_required
  ok (
      new_row c (some s.id) (some c.fresh) reason
        (start (record { policy = policy; cutoff = none })) none)

-- `prepare_start_offboarding`
unfoldable pub prepare_start_offboarding :
    ℕ
    → LifecycleOrder
    → LifecycleTables
    → Result LifecycleProblem (LifecycleTables × LifecycleOperation)
unfolding stage_command new_start
prepare_start_offboarding now c t =
    stage_command c (λ o. is_some (start_data o.action)) (new_start now c t) t

-- The row of a start after its cutoff is fixed; a term that ended first rejects the command.
unfoldable pub fix_cutoff : ℕ → ℕ → StartData → Term → LifecycleOperation → LifecycleOperation
fix_cutoff now deadline d s o =
    if leb s.ends_at now then record o { status = op_rejected } else record o {
      action = start (record d { cutoff = some (now, deadline) });
      requested_deadline = some deadline;
    }

-- the deadline, which is only computed before the term's end
unfoldable pub cutoff_deadline : Library → ℕ → StartData → Term → Result LifecycleProblem ℕ
unfolding deadline_of
cutoff_deadline lib now d s =
    if leb s.ends_at now then ok 0 else timed (deadline_of lib now d.policy)

-- `finalize_start_offboarding`
unfoldable pub finalize_start_offboarding :
    Library → ℕ → ℕ → LifecycleTables → Result LifecycleProblem LifecycleTables
unfolding fix_cutoff cutoff_deadline term_of update_first
finalize_start_offboarding lib now id t = do
  o ← or_raise (find_operation id t) history_unverified
  d ← or_raise (start_data o.action) history_unverified
  raise_if (not (is_pending_op o.status)) history_unverified
  if is_some d.cutoff
      then ok t
      else (or_raise (find_org o.org t) history_unverified >>= λ g.
          or_raise (term_of t g) history_unverified >>= λ s.
          raise_if
            (not (g.lifecycle_sequence == o.expected_sequence)
              || not (same_id (some s.id) o.term)
              || not (is_active g.lifecycle_status))
            history_unverified
          >> (cutoff_deadline lib now d s >>= λ deadline. ok (record t {
            operations = update_first (λ x. x.id == id) (fix_cutoff now deadline d s) t.operations;
          })))

unfoldable pub offboarded : LifecycleOperation → LifecycleEvent → StartData → ℕ → ℕ → Org → Org
offboarded o e d cutoff deadline g = record g {
  lifecycle_status = offboarding;
  service_ends_at = some cutoff;
  offboarding_id = o.episode;
  offboarding_started_at = some cutoff;
  offboarding_started_by = e.actor_id;
  purge_eligible_at = some deadline;
  policy_reference = some d.policy.reference;
}

-- `apply_start_offboarding`
unfoldable pub apply_start_offboarding :
    ℕ → LifecycleEvent → LifecycleTables → Result LifecycleProblem LifecycleTables
unfolding accepted_org offboarded term_of accept_operation
apply_start_offboarding id e t = do
  o ← or_raise (find_operation id t) history_unverified
  d ← or_raise (start_data o.action) history_unverified
  if is_applied_op o.status
      then ok t
      else (accepted_org o e t >>= λ g. or_raise d.cutoff history_unverified >>= λ fixed.
          or_raise (term_of t g) history_unverified >>= λ s.
          raise_if
            (not (e.accepted_at == fixed.0)
              || is_none e.actor_id
              || not (is_active g.lifecycle_status)
              || not (same_id (some s.id) o.term))
            history_unverified
          >> ok (accept_operation o e (offboarded o e d fixed.0 fixed.1) t))

-- an early offboarding of this episode, in a term that has not ended
unfoldable pub is_cancellable : ℕ → Option ℕ → Org → Term → Bool
is_cancellable now episode g s =
    is_offboarding g.lifecycle_status
    && same_id g.offboarding_id episode
    && is_some g.offboarding_started_by
    && ltb now s.ends_at

unfoldable pub new_cancel :
    ℕ → ℕ → LifecycleOrder → LifecycleTables → Result LifecycleProblem LifecycleOperation
unfolding current_org has_pending term_of is_cancellable new_row
new_cancel now episode c t = do
  g ← current_org c t
  s ← or_raise (term_of t g) episode_stale
  raise_if (not (is_cancellable now (some episode) g s)) episode_stale
  raise_if (has_pending c.org_id t) history_unverified
  reason ← or_raise c.reason reason_required
  ok (new_row c (some s.id) (some episode) reason (cancel s.ends_at) none)

-- `prepare_cancel_offboarding`
unfoldable pub prepare_cancel_offboarding :
    ℕ
    → ℕ
    → LifecycleOrder
    → LifecycleTables
    → Result LifecycleProblem (LifecycleTables × LifecycleOperation)
unfolding stage_command new_cancel
prepare_cancel_offboarding now episode c t =
    stage_command c (λ o. is_cancel o.action && same_id o.episode (some episode))
      (new_cancel now episode c t) t

unfoldable pub restored : Term → Org → Org
restored s g = record g {
  lifecycle_status = active;
  service_ends_at = some s.ends_at;
  offboarding_id = none;
  offboarding_started_at = none;
  offboarding_started_by = none;
  purge_eligible_at = none;
  policy_reference = none;
}

-- `apply_cancel_offboarding`
unfoldable pub apply_cancel_offboarding :
    ℕ → ℕ → LifecycleEvent → LifecycleTables → Result LifecycleProblem LifecycleTables
unfolding accepted_org is_cancellable restored term_of accept_operation
apply_cancel_offboarding now id e t = do
  o ← or_raise (find_operation id t) history_unverified
  raise_if (not (is_cancel o.action)) history_unverified
  if is_applied_op o.status
      then ok t
      else (accepted_org o e t >>= λ g. or_raise (term_of t g) history_unverified >>= λ s.
          raise_if
            (is_none e.actor_id
              || not (is_cancellable now o.episode g s)
              || not (same_id (some s.id) o.term))
            history_unverified
          >> ok (accept_operation o e (restored s) t))

unfoldable pub new_extension :
    ℕ → ℕ → LifecycleOrder → LifecycleTables → Result LifecycleProblem LifecycleOperation
unfolding current_org has_pending new_row
new_extension episode deadline c t = do
  g ← current_org c t
  raise_if (is_purging g.lifecycle_status) purge_already_claimed
  raise_if
      (not (is_offboarding g.lifecycle_status) || not (same_id g.offboarding_id (some episode)))
      episode_stale
  raise_if (has_pending c.org_id t) history_unverified
  old ← or_raise g.purge_eligible_at term_invalid
  raise_if (leb deadline old) term_invalid
  reason ← or_raise c.reason reason_required
  ok (new_row c none (some episode) reason (extend old deadline) (some deadline))

-- `prepare_deadline_extension`
unfoldable pub prepare_deadline_extension :
    ℕ
    → ℕ
    → LifecycleOrder
    → LifecycleTables
    → Result LifecycleProblem (LifecycleTables × LifecycleOperation)
unfolding stage_command new_extension
prepare_deadline_extension episode deadline c t =
    stage_command c (λ o. is_some (extension_data o.action) && same_id o.episode (some episode))
      (new_extension episode deadline c t) t

unfoldable pub extended : ℕ → Org → Org
extended deadline g = record g { purge_eligible_at = some deadline }

-- `apply_deadline_extension`
unfoldable pub apply_deadline_extension :
    ℕ → LifecycleEvent → LifecycleTables → Result LifecycleProblem LifecycleTables
unfolding accepted_org extended accept_operation
apply_deadline_extension id e t = do
  o ← or_raise (find_operation id t) history_unverified
  d ← or_raise (extension_data o.action) history_unverified
  if is_applied_op o.status
      then ok t
      else (accepted_org o e t >>= λ g.
          raise_if
            (is_none e.actor_id
              || not (is_offboarding g.lifecycle_status)
              || not (same_id g.offboarding_id o.episode)
              || not (same_id g.purge_eligible_at (some d.0)))
            history_unverified
          >> ok (accept_operation o e (extended d.1) t))
