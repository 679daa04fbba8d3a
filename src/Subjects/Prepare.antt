-- ===== src/Subjects/Prepare.antt =====
-- src/bluelab/lifecycle/subject_states.py, `prepare`: a decision is staged.
use bluelab_backend_prod.Prelude.{
  ℕ, ◌+◌, Bool, ◌&&◌, ◌||◌, not, Option, none, some, [], ◌∷◌, ◌++◌, ◌==◌, same_id, any, find,
  if◌then◌else◌, Result, ok, ◌>>=◌, ◌>>◌, raise_if, or_raise,
}
use bluelab_backend_prod.Subjects.{
  Command, Operation, Payload, Request, RequestKind, Restriction, StateProblem, Tables, allowed,
  find_request, is_export, is_pending_op, is_rejected_op, is_terminal, same_status, pending,
  awaiting_input, ready, rejected, withdrawn, op_pending, set_subject_request_state,
  release_restriction, not_found, operation_id_reuse, sequence_stale, history_unverified,
}

-- What only one operator decides at a time: the inputs of `prepare`.
pub record Decision : Type 0 where
  pub kind : RequestKind
  pub request_id : ℕ
  pub operation_id : ℕ
  pub actor_id : ℕ
  pub command : Command
  pub head_sequence : ℕ
  pub is_armed : Bool

-- the restriction of a request, if it is the one that the decision may touch
unfoldable pub is_restricting : Request → Restriction → Bool
is_restricting r s = same_id r.restriction (some s.id) && s.org == r.org

unfoldable pub payload_of : Decision → Option ℕ → Payload
payload_of d due = record {
  kind = d.kind;
  request_id = d.request_id;
  expected_status = d.command.expected_status;
  status = d.command.status;
  response_due_at = due;
  is_queued = same_status d.command.status pending;
}

-- The checks and the row of a decision that is new; 30 days are 2592000 seconds.
unfoldable pub new_operation :
    (RequestKind → ℕ → Command → ℕ)
    → ℕ
    → Decision
    → Request
    → Tables
    → Result StateProblem Operation
unfolding allowed is_restricting payload_of
new_operation digest now d r t = do
  org ← or_raise (find (λ o. o.id == r.org) t.orgs) not_found
  raise_if (not (org.lifecycle_sequence == d.head_sequence)) history_unverified
  raise_if (any (λ o. o.org == r.org && is_pending_op o.status) t.operations) history_unverified
  raise_if
      (not (same_status r.status d.command.expected_status)
        || not (allowed d.kind r.status d.command.status))
      sequence_stale
  s ← or_raise (find (is_restricting r) t.restrictions) history_unverified
  raise_if (not s.is_active || not (same_id s.related_request (some d.request_id)))
      history_unverified
  raise_if (not (is_export d.kind) && is_terminal d.command.status && d.is_armed) sequence_stale
  raise_if
      (is_export d.kind
        && same_status r.status ready
        && (same_status d.command.status rejected || same_status d.command.status withdrawn)
        && r.has_bundle)
      sequence_stale
  ok (record {
    id = d.operation_id;
    org = r.org;
    action =
        if is_terminal d.command.status then release_restriction else set_subject_request_state;
    status = op_pending;
    expected_sequence = d.head_sequence;
    resulting_sequence = none;
    actor = d.actor_id;
    reason = d.command.reason;
    restriction = s.id;
    payload =
        payload_of d
          (if same_status d.command.status awaiting_input then some (now + 2592000) else none);
    digest = digest d.kind d.request_id d.command;
  })

-- `prepare`; between its two reads of the request nothing changes.
unfoldable pub prepare :
    (RequestKind → ℕ → Command → ℕ)
    → ℕ
    → Decision
    → Tables
    → Result StateProblem (Tables × Operation)
unfolding find_request new_operation
prepare digest now d t = do
  r ← or_raise (find_request d.kind d.request_id t.requests) not_found
  elim (find (λ o. o.id == d.operation_id) t.operations) [
    | some o ↦
        raise_if
          (not (o.org == r.org)
            || not (o.actor == d.actor_id)
            || not (o.digest == digest d.kind d.request_id d.command))
          operation_id_reuse
        >> (raise_if (is_rejected_op o.status) sequence_stale >> ok (t, o))
    | none ↦ new_operation digest now d r t >>= λ o.
        ok (record t { operations = t.operations ++ o ∷ [] }, o)
  ]
