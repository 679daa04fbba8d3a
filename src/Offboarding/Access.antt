-- ===== src/Offboarding/Access.antt =====
-- src/bluelab/lifecycle/service.py, lifecycle_view and retention_policy_view, and
-- src/sql/functions/org_service_access.sql: who may use the service, and what operators are shown.
use bluelab_backend_prod.Prelude.{
  ℕ, ◌≡◌, Bool, true, false, ◌&&◌, ◌||◌, not, Option, none, some, ◌==◌, ltb, leb, find, is_none,
  is_some, if◌then◌else◌, Result, ok, ◌>>=◌, ◌>>◌, raise_if, or_raise, arith,
}
use bluelab_backend_prod.Offboarding.{
  Library, LifecycleProblem, LifecycleStatus, LifecycleTables, Org, RetentionPolicy, Term, find_org,
  has_pending, history_unverified, is_active, is_offboarding, is_purging, not_found, term_of,
}
use bluelab_backend_prod.Offboarding.Renewal.{default_policy, is_past}
use bluelab_backend_prod.Offboarding.Terms.{deadline_of, term_policy, timed}
use bluelab_backend_prod.Subjects.{is_pending_op}

pub data AccessStatus : Type 0 where
  unconfigured scheduled available hold purged : AccessStatus

abbrev pub is_available : AccessStatus → Bool
is_available available = true
is_available _ = false

-- starts_at is not None and now() < starts_at
abbrev pub is_early : ℕ → Option ℕ → Bool
is_early now none = false
is_early now (some start_) = ltb now start_

unfoldable pub access_status : ℕ → Org → Option Term → AccessStatus
access_status now g s =
    if is_purging g.lifecycle_status
    then purged
    else if is_offboarding g.lifecycle_status || is_past now g.service_ends_at
    then hold
    else if is_none s
    then unconfigured
    else if is_early now g.service_starts_at
    then scheduled
    else available

pub record LifecycleView : Type 0 where
  pub lifecycle_status : LifecycleStatus
  pub access_status : AccessStatus
  pub lifecycle_sequence : ℕ
  pub projected_purge_eligible_at : Option ℕ
  pub pending_operation_id : Option ℕ
  pub offboarding_id : Option ℕ
  pub purge_eligible_at : Option ℕ

unfoldable pub projected :
    Library → LifecycleTables → Option Term → Result LifecycleProblem (Option ℕ)
unfolding term_policy deadline_of
projected lib t none = ok none
projected lib t (some s) = do
  p ← term_policy t s
  deadline ← timed (deadline_of lib s.ends_at p)
  ok (some deadline)

-- `lifecycle_view`
unfoldable pub lifecycle_view :
    Library → ℕ → ℕ → ℕ → LifecycleTables → Result LifecycleProblem LifecycleView
unfolding access_status projected term_of
lifecycle_view lib now org head t = do
  g ← or_raise (find_org org t) not_found
  raise_if (not (head == g.lifecycle_sequence)) history_unverified
  deadline ← projected lib t (term_of t g)
  ok (record {
    lifecycle_status = g.lifecycle_status;
    access_status = access_status now g (term_of t g);
    lifecycle_sequence = g.lifecycle_sequence;
    projected_purge_eligible_at = deadline;
    pending_operation_id = elim (find (λ o. o.org == org && is_pending_op o.status) t.operations) [
      | none ↦ none
      | some o ↦ some o.id
    ];
    offboarding_id = g.offboarding_id;
    purge_eligible_at = g.purge_eligible_at;
  })

-- `retention_policy_view`, the policy
unfoldable pub retention_policy_view :
    ℕ → ℕ → LifecycleTables → Result LifecycleProblem RetentionPolicy
retention_policy_view org head t = do
  g ← or_raise (find_org org t) not_found
  raise_if (not (head == g.lifecycle_sequence)) history_unverified
  ok (elim (find (λ r. r.org == org) t.policies) [ none ↦ default_policy | some row ↦ row.policy ])

-- In SQL a comparison with an absent time does not hold.
abbrev pub has_begun : ℕ → Option ℕ → Bool
has_begun now none = false
has_begun now (some start_) = leb start_ now

abbrev pub has_not_ended : ℕ → Option ℕ → Bool
has_not_ended now none = false
has_not_ended now (some end_) = ltb now end_

-- `app_org_service_access`, in the scope of an organisation
unfoldable pub org_service_access : ℕ → ℕ → LifecycleTables → Bool
unfolding has_pending
org_service_access now org t = elim (find_org org t) [
  | none ↦ false
  | some g ↦
      is_active g.lifecycle_status
      && not (has_pending org t)
      && (not g.service_term_enforced
          || is_some g.current_term
            && has_begun now g.service_starts_at
            && has_not_ended now g.service_ends_at)
]

-- Operators see what the database enforces: for an organisation whose term is enforced, is set, and
-- has its two bounds, and that no pending operation fences, the view shows the service as
-- available exactly when the database lets its members and candidates in.
pub available_is_allowed :
    (lib : Library) (now org head : ℕ) (t : LifecycleTables) (g : Org) (s : Term) (starts ends : ℕ)
    (v : LifecycleView)
    → find_org org t ≡ some g
    → g.service_term_enforced ≡ true
    → has_pending org t ≡ false
    → term_of t g ≡ some s
    → is_some g.current_term ≡ true
    → g.service_starts_at ≡ some starts
    → g.service_ends_at ≡ some ends
    → lifecycle_view lib now org head t ≡ ok v
    → is_available v.access_status ≡ org_service_access now org t
unfolding lifecycle_view org_service_access access_status
available_is_allowed lib now org head t g s starts ends v found enforced free current set begins
      stops shown =
    ground arith

-- A fence stands while a decision is pending: no one is let in.
pub pending_shuts :
    (now org : ℕ) (t : LifecycleTables)
    → has_pending org t ≡ true
    → org_service_access now org t ≡ false
unfolding org_service_access
pending_shuts now org t waits = ground arith
