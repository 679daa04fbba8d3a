-- ===== src/Offboarding/Examples.antt =====
-- Runs of src/bluelab/lifecycle that meet the hypotheses of its theorems: an organisation that is
-- offboarded until time 10 is claimed at time 15.
mod Access
mod Extension
use bluelab_backend_prod.Prelude.{
  ℕ, ◌+◌, ◌≤◌, ◌≡◌, refl, true, false, none, some, List, [], ◌∷◌, ok, err, arith,
}
use bluelab_backend_prod.Clock.{Calendar, Zone, elapsed_days, retention_deadline}
use mathlib.Core.List.{Memᴰ}
use bluelab_backend_prod.Offboarding.{
  DeletionRestriction, Term, active, cancel, confirm_term, term_of, has_pending, history_unverified,
  purge_blocked, renew_term, Library, LifecycleEvent, LifecycleOperation, LifecycleTables, TermData,
  Org, offboarding, purging, LifecycleOrder, find_org, is_purging,
}
use bluelab_backend_prod.Offboarding.Fence.{IsFenced}
use bluelab_backend_prod.Offboarding.Access.{
  LifecycleView, available, available_is_allowed, lifecycle_view, org_service_access,
}
use bluelab_backend_prod.Offboarding.Episode.{apply_cancel_offboarding}
use bluelab_backend_prod.Offboarding.Late.{late_cancel_wedges}
use bluelab_backend_prod.Offboarding.Renewal.{TermCommand, new_term}
use bluelab_backend_prod.Offboarding.Final.{
  IsObliged, restricted, blocked_not_claimed, claimed_stays, deadline_grows, fresh-IsFenced,
  purged_is_due,
}
use bluelab_backend_prod.Offboarding.Steps.{
  LifecycleStep, perform, run, claims, claim_accepted, extends, extension_accepted, term_accepted,
}
use bluelab_backend_prod.Offboarding.Claim.{claim_blocker, prepare_claim}
use bluelab_backend_prod.Offboarding.Upheld.{Evolves-IsFenced}
use bluelab_backend_prod.Subjects.{op_pending, op_applied}

abbrev utc : Zone
utc = record { local = λ t. t; utc = λ l fold. l }

abbrev calendar : Calendar
calendar = record {
  year_of = λ d. 2026;
  month_of = λ d. 1;
  day_of = λ d. 1;
  day_number = λ y m d. d;
  days_in = λ y m. 31;
}

abbrev pub library : Library
library = record {
  calendar = calendar;
  zone = λ z. utc;
  expiry_id = λ org term. 1000 + term;
  claim_id = λ org episode. 2000 + episode;
  run_id = λ org episode. 3000 + episode;
}

abbrev pub leaving : Org
leaving = record {
  id = 7;
  timezone = 0;
  lifecycle_status = offboarding;
  lifecycle_sequence = 4;
  current_term = some 70;
  service_term_enforced = true;
  service_starts_at = some 1;
  service_ends_at = some 5;
  offboarding_id = some 71;
  offboarding_started_at = some 5;
  offboarding_started_by = none;
  purge_eligible_at = some 10;
  policy_reference = some 0;
}

abbrev pub tables : LifecycleTables
tables = record {
  orgs = leaving ∷ [];
  terms = [];
  policies = [];
  operations = [];
  restrictions = [];
  requests = [];
  runs = [];
}

abbrev claim_event : LifecycleEvent
claim_event = record {
  operation_id = 2071;
  org_id = 7;
  matches = λ a. true;
  actor_id = none;
  reason = 1;
  sequence = 5;
  accepted_at = 15;
}

abbrev a_claim : List (ℕ × LifecycleStep)
a_claim = (15, claims 7 71 4) ∷ (15, claim_accepted 2071 claim_event) ∷ []

abbrev claimed_org : Org
claimed_org = record leaving { lifecycle_status = purging; lifecycle_sequence = 5 }

is_claimed : find_org 7 (run library a_claim tables) ≡ some claimed_org
unfolding run
is_claimed = refl

pub tables-IsFenced : IsFenced 20 tables
tables-IsFenced = fresh-IsFenced 20 tables refl (refl, tt)

purged_is_due_example : (d : ℕ) × (claimed_org.purge_eligible_at ≡ some d) × (d ≤ 20)
purged_is_due_example =
    purged_is_due library 20 a_claim tables 7 claimed_org tables-IsFenced (omega arith) is_claimed
      refl

-- A renewal that was staged before the claim and is accepted after it.
abbrev pub renewal : TermData
renewal = record {
  service_term_id = 72;
  start_on = 6;
  last_access_on = 9;
  starts_at = 6;
  ends_at = 10;
  policy = record {
    reference = 0;
    period_value = 90;
    period_unit = elapsed_days;
    calendar_timezone = none;
  };
  policy_is_revision = false;
  contract_reference = 1;
  cancelled_offboarding_id = some 71;
}

abbrev pub overtaken : LifecycleOperation
overtaken = record {
  id = 900;
  org = 7;
  term = some 72;
  episode = some 71;
  restriction = none;
  action = renew_term renewal;
  status = op_pending;
  expected_sequence = 4;
  resulting_sequence = none;
  actor = some 3;
  reason = 2;
  requested_deadline = none;
  digest = none;
}

abbrev claimed_tables : LifecycleTables
claimed_tables = record tables { orgs = claimed_org ∷ []; operations = overtaken ∷ [] }

claimed_tables-IsFenced : IsFenced 20 claimed_tables
claimed_tables-IsFenced = record {
  fenced = (λ g found waits. (ground arith, λ e. absurd (ground arith)), tt);
  due = (λ purged. refl, tt);
}

abbrev pub renewal_event : LifecycleEvent
renewal_event = record {
  operation_id = 900;
  org_id = 7;
  matches = λ a. true;
  actor_id = some 3;
  reason = 2;
  sequence = 5;
  accepted_at = 16;
}

abbrev late_renewal : List (ℕ × LifecycleStep)
late_renewal = (16, term_accepted 900 renewal_event) ∷ []

claimed_stays_example :
    (g' : Org) × (find_org 7 (run library late_renewal claimed_tables) ≡ some g')
    × (is_purging g'.lifecycle_status ≡ true)
    × (g'.purge_eligible_at ≡ some 10)
claimed_stays_example =
    claimed_stays library 20 late_renewal claimed_tables 7 claimed_org claimed_tables-IsFenced
      (omega arith) refl refl

abbrev restriction : DeletionRestriction
restriction = record {
  id = 80;
  org = 7;
  episode = some 71;
  is_active = true;
  related_request = none;
}

abbrev restricted_tables : LifecycleTables
restricted_tables = record tables { restrictions = restriction ∷ [] }

restricted_tables-IsFenced : IsFenced 20 restricted_tables
restricted_tables-IsFenced = fresh-IsFenced 20 restricted_tables refl (refl, tt)

still_there : find_org 7 (perform library 15 (claims 7 71 4) restricted_tables) ≡ some leaving
unfolding perform
still_there = refl

obliged : IsObliged 7 restricted_tables
obliged = restricted restriction (Memᴰ.head refl) refl refl

blocked_not_claimed_example :
    (is_purging leaving.lifecycle_status ≡ false)
    × (perform library 15 (claims 7 71 4) restricted_tables ≡ restricted_tables)
blocked_not_claimed_example =
    blocked_not_claimed library 20 15 (claims 7 71 4) restricted_tables 7 71 4 leaving leaving
      restricted_tables-IsFenced (omega arith) refl obliged refl still_there

abbrev pub an_order : LifecycleOrder
an_order = record {
  org_id = 7;
  operation_id = 901;
  actor_id = 3;
  expected_sequence = 4;
  reason = some 2;
  digest = 55;
  head_sequence = 4;
  fresh = 90;
}
