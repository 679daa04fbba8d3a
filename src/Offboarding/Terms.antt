-- ===== src/Offboarding/Terms.antt =====
-- src/bluelab/lifecycle/service.py: confirming, renewing and expiring a service term, with
-- apply_org_service_term of src/bluelab/modules/identity/service.py.
use bluelab_backend_prod.Prelude.{
  ℕ, ◌&&◌, ◌||◌, not, Option, none, some, [], ◌∷◌, ◌++◌, ◌==◌, leb, is_some, same_id, find,
  if◌then◌else◌, Result, ok, err, ◌>>=◌, ◌>>◌, raise_if, or_raise,
}
use bluelab_backend_prod.Clock.{ClockError, retention_deadline}
use bluelab_backend_prod.Offboarding.{
  LifecycleAction, confirm_term, renew_term, expire_term, Library, LifecycleEvent,
  LifecycleOperation, LifecycleProblem, history_unverified, policy_unverified, clock,
  LifecycleTables, Org, RetentionPolicy, Term, TermData, offboarding, is_active, find_operation,
  find_org, has_pending, term_of,
}
use bluelab_backend_prod.Offboarding.Commands.{accepted_org, accept_operation}
use bluelab_backend_prod.Subjects.{is_applied_op, op_pending}

abbrev pub term_data : LifecycleAction → Option TermData
term_data (confirm_term d) = some d
term_data (renew_term d) = some d
term_data _ = none

-- the cutoff, the deadline and the policy of an expiry
abbrev pub expiry_data : LifecycleAction → Option (ℕ × ℕ × ℕ)
expiry_data (expire_term ended deadline reference) = some (ended, deadline, reference)
expiry_data _ = none

-- A clock error ends a preparation as it is, where no `except ValueError` stands around it.
abbrev pub timed {ℓ} : {A : Type ℓ} → Result ClockError A → Result LifecycleProblem A
timed (ok a) = ok a
timed (err e) = err (clock e)

unfoldable pub deadline_of : Library → ℕ → RetentionPolicy → Result ClockError ℕ
deadline_of lib cutoff p =
    retention_deadline lib.calendar cutoff p.period_value p.period_unit
      (elim p.calendar_timezone [ none ↦ none | some z ↦ some (lib.zone z) ])

-- `_term_policy`
unfoldable pub term_policy : LifecycleTables → Term → Result LifecycleProblem RetentionPolicy
term_policy t s = do
  o ←
      or_raise
        (find
          (λ o.
            o.org == s.org
            && same_id o.term (some s.id)
            && is_applied_op o.status
            && is_some (term_data o.action))
          t.operations)
        policy_unverified
  d ← or_raise (term_data o.action) policy_unverified
  raise_if (not (d.policy.reference == s.policy_reference)) policy_unverified
  ok d.policy

-- The row of an expiry; its deadline comes from the term's end.
unfoldable pub expiry_row : Library → ℕ → Org → Term → ℕ → LifecycleOperation
expiry_row lib fresh g s deadline = record {
  id = lib.expiry_id g.id s.id;
  org = g.id;
  term = some s.id;
  episode = some fresh;
  restriction = none;
  action = expire_term s.ends_at deadline s.policy_reference;
  status = op_pending;
  expected_sequence = g.lifecycle_sequence;
  resulting_sequence = none;
  actor = none;
  reason = 0;
  requested_deadline = some deadline;
  digest = none;
}

-- an active organisation whose term has ended
unfoldable pub due_term : ℕ → LifecycleTables → Org → Option Term
unfolding term_of
due_term now t g = elim (term_of t g) [
  | none ↦ none
  | some s ↦ if is_active g.lifecycle_status && leb s.ends_at now then some s else none
]

unfoldable pub new_expiry :
    Library → ℕ → ℕ → Org → Term → LifecycleTables → Result LifecycleProblem LifecycleOperation
unfolding term_policy deadline_of expiry_row has_pending
new_expiry lib head fresh g s t = do
  raise_if (not (g.lifecycle_sequence == head)) history_unverified
  raise_if (has_pending g.id t) history_unverified
  p ← term_policy t s
  deadline ← timed (deadline_of lib s.ends_at p)
  ok (expiry_row lib fresh g s deadline)

-- `prepare_expiry`
unfoldable pub prepare_expiry :
    Library
    → ℕ
    → ℕ
    → ℕ
    → ℕ
    → LifecycleTables
    → Result LifecycleProblem (LifecycleTables × Option LifecycleOperation)
unfolding due_term new_expiry
prepare_expiry lib now org_id head fresh t = elim (find_org org_id t) [
  | none ↦ ok (t, none)
  | some g ↦ elim (due_term now t g) [
    | none ↦ ok (t, none)
    | some s ↦ elim (find_operation (lib.expiry_id org_id s.id) t) [
      | some o ↦ ok (t, some o)
      | none ↦ new_expiry lib head fresh g s t >>= λ o.
          ok (record t { operations = t.operations ++ o ∷ [] }, some o)
    ]
  ]
]

unfoldable pub expired : LifecycleOperation → ℕ → ℕ → ℕ → Org → Org
expired o ended deadline reference g = record g {
  lifecycle_status = offboarding;
  offboarding_id = o.episode;
  offboarding_started_at = some ended;
  offboarding_started_by = none;
  purge_eligible_at = some deadline;
  policy_reference = some reference;
}

-- `apply_expiry`
unfoldable pub apply_expiry :
    ℕ → LifecycleEvent → LifecycleTables → Result LifecycleProblem LifecycleTables
unfolding accepted_org expired term_of accept_operation
apply_expiry id e t = do
  o ← or_raise (find_operation id t) history_unverified
  d ← or_raise (expiry_data o.action) history_unverified
  if is_applied_op o.status
      then ok t
      else (accepted_org o e t >>= λ g. or_raise (term_of t g) history_unverified >>= λ s.
          raise_if
            (is_some e.actor_id
              || not (is_active g.lifecycle_status)
              || not (same_id (some s.id) o.term)
              || not (s.ends_at == d.0))
            history_unverified
          >> ok (accept_operation o e (expired o d.0 d.1 d.2) t))
