-- ===== src/Offboarding/Claim.antt =====
-- src/bluelab/lifecycle/purge.py: the claim of an organisation whose deadline has passed.
use bluelab_backend_prod.Prelude.{
  ℕ, Bool, true, false, ◌&&◌, ◌||◌, not, Option, none, some, [], ◌∷◌, ◌++◌, ◌==◌, leb, is_some,
  same_id, any, find, if◌then◌else◌, Result, ok, ◌>>=◌, ◌>>◌, raise_if, or_raise,
}
use bluelab_backend_prod.Offboarding.{
  LifecycleAction, claim, Library, LifecycleEvent, LifecycleOperation, LifecycleProblem,
  purge_blocked, no_result, key_error, LifecycleTables, Org, PurgeRun, purging, is_offboarding,
  find_operation, find_org, has_pending,
}
use bluelab_backend_prod.Offboarding.Commands.{is_accepted, accept_operation}
use bluelab_backend_prod.Subjects.{
  Request, pending, processing, awaiting_input, ready, failed, is_applied_op, is_export, op_pending,
}

-- a request that is still to be answered; only an export can be ready
abbrev pub is_unanswered : Request → Bool
is_unanswered r = elim r.status [
  | pending ↦ true
  | processing ↦ true
  | awaiting_input ↦ true
  | failed ↦ true
  | ready ↦ is_export r.kind
  | _ ↦ false
]

unfoldable pub is_restricted : ℕ → LifecycleTables → Bool
is_restricted org t = any (λ r. r.org == org && r.is_active) t.restrictions

-- `_claim_blocker`
unfoldable pub claim_blocker : ℕ → LifecycleTables → Bool
unfolding is_restricted
claim_blocker org t = is_restricted org t || any (λ r. r.org == org && is_unanswered r) t.requests

-- the deadline of an organisation has passed
abbrev pub is_due : ℕ → Org → Bool
is_due now g = elim g.purge_eligible_at [ none ↦ false | some d ↦ leb d now ]

unfoldable pub is_eligible : ℕ → ℕ → ℕ → Org → Bool
is_eligible now episode sequence g =
    is_offboarding g.lifecycle_status
    && same_id g.offboarding_id (some episode)
    && g.lifecycle_sequence == sequence
    && is_due now g
    && is_some g.offboarding_started_at
    && is_some g.policy_reference

unfoldable pub claim_row : Library → ℕ → ℕ → Org → LifecycleOperation
claim_row lib episode sequence g = record {
  id = lib.claim_id g.id episode;
  org = g.id;
  term = g.current_term;
  episode = some episode;
  restriction = none;
  action = claim (lib.run_id g.id episode);
  status = op_pending;
  expected_sequence = sequence;
  resulting_sequence = none;
  actor = none;
  reason = 1;
  requested_deadline = g.purge_eligible_at;
  digest = none;
}

-- `prepare_claim`
unfoldable pub prepare_claim :
    Library
    → ℕ
    → ℕ
    → ℕ
    → ℕ
    → LifecycleTables
    → Result LifecycleProblem (LifecycleTables × LifecycleOperation)
unfolding is_eligible claim_blocker has_pending claim_row
prepare_claim lib now org episode sequence t = elim (find_operation (lib.claim_id org episode) t) [
  | some o ↦
      raise_if (not (o.org == org) || not (same_id o.episode (some episode))) purge_blocked
      >> ok (t, o)
  | none ↦ or_raise (find_org org t) purge_blocked >>= λ g.
      raise_if (not (is_eligible now episode sequence g)) purge_blocked
      >> (raise_if (claim_blocker org t) purge_blocked
          >> (raise_if (has_pending org t) purge_blocked
              >> ok (
                record t { operations = t.operations ++ claim_row lib episode sequence g ∷ [] },
                claim_row lib episode sequence g,
              )))
]

-- the run of an applied claim
unfoldable pub existing_run :
    ℕ → LifecycleTables → Result LifecycleProblem (LifecycleTables × PurgeRun)
existing_run run t = or_raise (find (λ r. r.id == run) t.runs) purge_blocked >>= λ r. ok (t, r)

unfoldable pub run_of : ℕ → LifecycleOperation → Org → PurgeRun
run_of run o g = record {
  id = run;
  org = g.id;
  episode = o.episode;
  purge_eligible_at = g.purge_eligible_at;
}

abbrev pub claimed_run : LifecycleAction → Option ℕ
claimed_run (claim run) = some run
claimed_run _ = none

unfoldable pub claimed : Org → Org
claimed g = record g { lifecycle_status = purging }

-- `apply_claim`
unfoldable pub apply_claim :
    ℕ → LifecycleEvent → LifecycleTables → Result LifecycleProblem (LifecycleTables × PurgeRun)
unfolding claim_blocker claimed existing_run is_accepted run_of accept_operation
apply_claim id e t = do
  o ← or_raise (find_operation id t) no_result
  run ← or_raise (claimed_run o.action) key_error
  if is_applied_op o.status
      then existing_run run t
      else (raise_if (not (is_accepted o e)) purge_blocked
          >> (or_raise (find_org o.org t) purge_blocked >>= λ g.
              raise_if
                (not (is_offboarding g.lifecycle_status)
                  || not (same_id g.offboarding_id o.episode)
                  || not (g.lifecycle_sequence == o.expected_sequence)
                  || claim_blocker g.id t)
                purge_blocked
              >> ok (
                record (accept_operation o e claimed t) { runs = t.runs ++ run_of run o g ∷ [] },
                run_of run o g,
              )))
