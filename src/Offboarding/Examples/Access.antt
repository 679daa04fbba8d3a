-- ===== src/Offboarding/Examples/Access.antt =====
-- Runs of src/bluelab/lifecycle/service.py on who may use the service and on a late cancellation.
use bluelab_backend_prod.Prelude.{◌≡◌, refl, true, false, none, some, [], ◌∷◌, ok, err, arith}
use bluelab_backend_prod.Clock.{retention_deadline}
use bluelab_backend_prod.Offboarding.{
  Term, active, cancel, confirm_term, term_of, has_pending, history_unverified, purge_blocked,
  LifecycleOperation, LifecycleTables, Org, LifecycleOrder,
}
use bluelab_backend_prod.Offboarding.Access.{
  LifecycleView, available, available_is_allowed, lifecycle_view, org_service_access,
}
use bluelab_backend_prod.Offboarding.Episode.{apply_cancel_offboarding}
use bluelab_backend_prod.Offboarding.Late.{late_cancel_wedges}
use bluelab_backend_prod.Offboarding.Renewal.{TermCommand, new_term}
use bluelab_backend_prod.Offboarding.Claim.{prepare_claim}
use bluelab_backend_prod.Subjects.{op_applied}
use bluelab_backend_prod.Offboarding.Examples.{
  library, leaving, tables, renewal, overtaken, renewal_event, an_order,
}

-- An offboarding that operator 3 started at time 5 of a term that ends at time 9, and its
-- cancellation, which is accepted at 8 and applied at 12.
abbrev term : Term
term = record {
  id = 70;
  org = 7;
  start_on = 1;
  last_access_on = 8;
  starts_at = 1;
  ends_at = 9;
  policy_reference = 0;
}

abbrev left_early : Org
left_early = record leaving { offboarding_started_by = some 3 }

abbrev cancellation : LifecycleOperation
cancellation = record overtaken { term = some 70; action = cancel 9 }

abbrev late_tables : LifecycleTables
late_tables = record tables {
  orgs = left_early ∷ [];
  terms = term ∷ [];
  operations = cancellation ∷ [];
}

is_current : term_of late_tables left_early ≡ some term
unfolding term_of
is_current = refl

abbrev an_order_after : LifecycleOrder
an_order_after = record an_order { expected_sequence = 5; head_sequence = 5 }

abbrev a_term : TermCommand
a_term = record {
  current_offboarding_id = some 71;
  service_start_on = 6;
  service_last_access_on = 9;
  contract_reference = 1;
  retention_policy = none;
}

late_cancel_wedges_example :
    (apply_cancel_offboarding 12 900 renewal_event late_tables ≡ err history_unverified)
    × (new_term library 13 an_order_after a_term late_tables ≡ err history_unverified)
    × (prepare_claim library 13 7 71 5 late_tables ≡ err purge_blocked)
late_cancel_wedges_example =
    late_cancel_wedges late_tables 900 cancellation left_early term refl refl refl is_current 12
      renewal_event library 13 an_order_after a_term 71 5 refl (omega arith) refl refl refl

abbrev member_org : Org
member_org = record leaving {
  lifecycle_status = active;
  service_ends_at = some 9;
  offboarding_id = none;
  offboarding_started_at = none;
  purge_eligible_at = none;
  policy_reference = none;
}

abbrev confirmed : LifecycleOperation
confirmed = record overtaken { term = some 70; action = confirm_term renewal; status = op_applied }

abbrev member_tables : LifecycleTables
member_tables = record tables {
  orgs = member_org ∷ [];
  terms = term ∷ [];
  operations = confirmed ∷ [];
}

abbrev member_view : LifecycleView
member_view = record {
  lifecycle_status = active;
  access_status = available;
  lifecycle_sequence = 4;
  projected_purge_eligible_at = some 7776000000009;
  pending_operation_id = none;
  offboarding_id = none;
  purge_eligible_at = none;
}

is_free : has_pending 7 member_tables ≡ false
unfolding has_pending
is_free = refl

member_term : term_of member_tables member_org ≡ some term
unfolding term_of
member_term = refl

is_shown : lifecycle_view library 6 7 4 member_tables ≡ ok member_view
unfolding lifecycle_view retention_deadline
is_shown = refl

available_is_allowed_example : true ≡ org_service_access 6 7 member_tables
available_is_allowed_example =
    available_is_allowed library 6 7 4 member_tables member_org term 1 9 member_view refl refl
      is_free member_term refl refl refl is_shown
