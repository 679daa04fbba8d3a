-- ===== src/Offboarding/Renewal.antt =====
-- src/bluelab/lifecycle/service.py: prepare_term and apply_term, with apply_org_service_term of
-- src/bluelab/modules/identity/service.py.
use bluelab_backend_prod.Prelude.{
  ℕ, ◌+◌, Bool, true, false, ◌&&◌, ◌||◌, not, Option, none, some, List, [], ◌∷◌, ◌++◌, ◌==◌, ltb,
  leb, is_none, is_some, same_id, any, find, if◌then◌else◌, Result, ok, err, ◌>>=◌, ◌>>◌, raise_if,
  or_raise,
}
use bluelab_backend_prod.Clock.{
  ClockError, overflow, RetentionUnit, elapsed_days, calendar_days, calendar_months,
  service_term_bounds,
}
use bluelab_backend_prod.Offboarding.{
  LifecycleAction, confirm_term, renew_term, Library, LifecycleEvent, LifecycleOperation,
  LifecycleProblem, history_unverified, purge_already_claimed, episode_stale, term_invalid,
  reason_required, clock, key_error, LifecycleTables, LifecycleOrder, Org, PolicyRow,
  RetentionPolicy, Term, TermData, active, is_active, is_offboarding, is_purging, find_operation,
  has_pending, term_of,
}
use bluelab_backend_prod.Offboarding.Commands.{
  accepted_org, current_org, new_row, accept_operation, stage_command,
}
use bluelab_backend_prod.Offboarding.Terms.{term_data, deadline_of}
use bluelab_backend_prod.Subjects.{is_applied_op, update_first}

pub record TermCommand : Type 0 where
  pub current_offboarding_id : Option ℕ
  pub service_start_on : ℕ
  pub service_last_access_on : ℕ
  pub contract_reference : ℕ
  pub retention_policy : Option RetentionPolicy

abbrev pub is_elapsed : RetentionUnit → Bool
is_elapsed elapsed_days = true
is_elapsed _ = false

abbrev pub same_unit : RetentionUnit → RetentionUnit → Bool
same_unit elapsed_days elapsed_days = true
same_unit calendar_days calendar_days = true
same_unit calendar_months calendar_months = true
same_unit _ _ = false

-- DEFAULT_POLICY_REFERENCE is number 0.
abbrev pub default_policy : RetentionPolicy
default_policy = record {
  reference = 0;
  period_value = 90;
  period_unit = elapsed_days;
  calendar_timezone = none;
}

-- `except ValueError`: an overflow is none.
abbrev pub or_invalid {ℓ} : {A : Type ℓ} → Result ClockError A → Result LifecycleProblem A
or_invalid (ok a) = ok a
or_invalid (err overflow) = err (clock overflow)
or_invalid (err _) = err term_invalid

-- two terms of a period that differ
unfoldable pub is_changed : RetentionPolicy → RetentionPolicy → Bool
is_changed p q =
    not (p.period_value == q.period_value)
    || not (same_unit p.period_unit q.period_unit)
    || not (same_id p.calendar_timezone q.calendar_timezone)

unfoldable pub choose_policy :
    Option RetentionPolicy → Option PolicyRow → ℕ → Result LifecycleProblem RetentionPolicy
unfolding is_changed
choose_policy none none timezone = ok default_policy
choose_policy none (some row) timezone = ok row.policy
choose_policy (some p) current timezone = do
  raise_if (not (is_elapsed p.period_unit) && not (same_id p.calendar_timezone (some timezone)))
      term_invalid
  raise_if (p.reference == 0 && (not (p.period_value == 90) || not (is_elapsed p.period_unit)))
      term_invalid
  raise_if
      (elim current [
        | none ↦ false
        | some row ↦ p.reference == row.policy.reference && is_changed p row.policy
      ])
      term_invalid
  ok p

-- now() < org.service_ends_at, and its contrary where the end is known
abbrev pub is_before : ℕ → Option ℕ → Bool
is_before now none = false
is_before now (some end_) = ltb now end_

abbrev pub is_past : ℕ → Option ℕ → Bool
is_past now none = false
is_past now (some end_) = leb end_ now

-- The term that runs can only be prolonged.
unfoldable pub breaks_term : ℕ → TermCommand → Org → Option Term → Bool
breaks_term now c g none = false
breaks_term now c g (some s) =
    is_active g.lifecycle_status
    && is_before now g.service_ends_at
    && (not (c.service_start_on == s.start_on) || leb c.service_last_access_on s.last_access_on)

unfoldable pub names_episode : TermCommand → Org → Bool
names_episode c g =
    if is_offboarding g.lifecycle_status
    then same_id c.current_offboarding_id g.offboarding_id
    else is_none c.current_offboarding_id

-- the episode that a renewal ends; a hold that no expiry has recorded gets a new id
unfoldable pub cancelled_episode : ℕ → ℕ → Org → Option Term → Option ℕ
cancelled_episode now fresh g s =
    if is_some s
      && is_active g.lifecycle_status
      && is_past now g.service_ends_at
      && is_none g.offboarding_id
    then some fresh
    else g.offboarding_id

abbrev pub term_action : Option Term → TermData → LifecycleAction
term_action none d = confirm_term d
term_action (some s) d = renew_term d

unfoldable pub new_term :
    Library
    → ℕ
    → LifecycleOrder
    → TermCommand
    → LifecycleTables
    → Result LifecycleProblem LifecycleOperation
unfolding current_org has_pending term_of names_episode breaks_term choose_policy deadline_of
    cancelled_episode new_row
new_term lib now c m t = do
  g ← current_org c t
  let s = term_of t g
  raise_if (is_purging g.lifecycle_status) purge_already_claimed
  raise_if (has_pending c.org_id t) history_unverified
  raise_if (not (names_episode m g)) episode_stale
  raise_if (breaks_term now m g s) term_invalid
  reason ← or_raise c.reason reason_required
  bounds ←
      or_invalid
        (service_term_bounds (lib.zone g.timezone) m.service_start_on m.service_last_access_on)
  policy ← choose_policy m.retention_policy (find (λ r. r.org == g.id) t.policies) g.timezone
  deadline ← or_invalid (deadline_of lib bounds.1 policy)
  ok (
      new_row c (some c.fresh) g.offboarding_id reason
        (term_action s (record {
          service_term_id = c.fresh;
          start_on = m.service_start_on;
          last_access_on = m.service_last_access_on;
          starts_at = bounds.0;
          ends_at = bounds.1;
          policy = policy;
          policy_is_revision = is_some m.retention_policy;
          contract_reference = m.contract_reference;
          cancelled_offboarding_id = cancelled_episode now (c.fresh + 1) g s;
        }))
        (some deadline))

-- `prepare_term`: a known id is not compared by its action
unfoldable pub prepare_term :
    Library
    → ℕ
    → LifecycleOrder
    → TermCommand
    → LifecycleTables
    → Result LifecycleProblem (LifecycleTables × LifecycleOperation)
unfolding stage_command new_term
prepare_term lib now c m t = stage_command c (λ _. true) (new_term lib now c m t) t

-- `apply_org_service_term`, the organisation's row
unfoldable pub served : TermData → Org → Org
served d g = record g {
  current_term = some d.service_term_id;
  service_starts_at = some d.starts_at;
  service_ends_at = some d.ends_at;
  service_term_enforced = true;
  lifecycle_status = active;
  offboarding_id = none;
  offboarding_started_at = none;
  offboarding_started_by = none;
  purge_eligible_at = none;
  policy_reference = none;
}

-- `apply_org_service_term`, the policy row
unfoldable pub set_policy : ℕ → ℕ → RetentionPolicy → List PolicyRow → List PolicyRow
unfolding update_first
set_policy org contract policy rows =
    if any (λ r. r.org == org) rows
    then update_first (λ r. r.org == org)
        (λ r. record r { contract_reference = contract; policy = policy }) rows
    else rows ++ (record { org = org; contract_reference = contract; policy = policy }) ∷ []

unfoldable pub add_term : LifecycleOperation → TermData → LifecycleTables → LifecycleTables
unfolding set_policy
add_term o d t = record t {
  terms =
      t.terms
      ++ (record {
        id = d.service_term_id;
        org = o.org;
        start_on = d.start_on;
        last_access_on = d.last_access_on;
        starts_at = d.starts_at;
        ends_at = d.ends_at;
        policy_reference = d.policy.reference;
      })
        ∷ [];
  policies =
      if d.policy_is_revision
      then set_policy o.org d.contract_reference d.policy t.policies
      else t.policies;
}

-- `apply_term`
unfoldable pub apply_term :
    ℕ → LifecycleEvent → LifecycleTables → Result LifecycleProblem LifecycleTables
unfolding accepted_org served add_term accept_operation
apply_term id e t = do
  o ← or_raise (find_operation id t) history_unverified
  if is_applied_op o.status
      then ok t
      else (accepted_org o e t >>= λ g. or_raise (term_data o.action) key_error >>= λ d.
          raise_if (is_none e.actor_id) history_unverified
          >> ok (add_term o d (accept_operation o e (served d) t)))
