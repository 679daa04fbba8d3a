-- ===== src/Subjects/Apply.antt =====
-- src/bluelab/lifecycle/subject_states.py, `apply` and `reject`: a decision takes effect once it is
-- in the history, or is dropped.
use bluelab_backend_prod.Prelude.{
  ℕ, ◌+◌, Bool, true, false, ◌&&◌, not, Option, some, [], ◌∷◌, ◌++◌, ◌==◌, same_id, find,
  if◌then◌else◌, Result, ok, ◌>>=◌, ◌>>◌, raise_if, or_raise,
}
use bluelab_backend_prod.Subjects.{
  Operation, OperationAction, Payload, Request, RequestKind, StateProblem, Tables, is_applied_op,
  is_decision, is_export, is_pending_op, is_terminal, same_kind, same_status, update_first,
  delivered, op_applied, op_rejected, set_subject_request_state, release_restriction,
  another_action, history_unverified,
}

-- An accepted event of the history; `matches` is the comparison of its data with the payload.
pub record HistoryEvent : Type 0 where
  pub operation_id : ℕ
  pub org_id : ℕ
  pub action : OperationAction
  pub actor_id : Option ℕ
  pub reason : ℕ
  pub sequence : ℕ
  pub accepted_at : ℕ
  pub matches : Payload → Bool

abbrev pub same_action : OperationAction → OperationAction → Bool
same_action set_subject_request_state set_subject_request_state = true
same_action release_restriction release_restriction = true
same_action another_action another_action = true
same_action _ _ = false

unfoldable pub is_event_of : Operation → HistoryEvent → Bool
is_event_of o e =
    is_pending_op o.status
    && e.operation_id == o.id
    && e.org_id == o.org
    && same_action e.action o.action
    && same_id e.actor_id (some o.actor)
    && e.reason == o.reason
    && e.matches o.payload
    && e.sequence == o.expected_sequence + 1

unfoldable pub moved_request : Payload → ℕ → Request → Request
moved_request data_ at r = record r {
  status = data_.status;
  response_due_at = data_.response_due_at;
  closed_at = if is_terminal data_.status then some at else r.closed_at;
  delivered_at =
      if is_export data_.kind && same_status data_.status delivered
      then some at
      else r.delivered_at;
}

unfoldable pub is_target : Operation → Request → Bool
is_target o r = r.id == o.payload.request_id && same_kind r.kind o.payload.kind && r.org == o.org

-- The writes of `apply`.
unfoldable pub apply_writes : Operation → HistoryEvent → Tables → Tables
unfolding update_first moved_request is_target
apply_writes o e t = record t {
  orgs =
      update_first (λ g. g.id == o.org) (λ g. record g { lifecycle_sequence = e.sequence }) t.orgs;
  requests = update_first (is_target o) (moved_request o.payload e.accepted_at) t.requests;
  restrictions =
      if is_terminal o.payload.status
      then update_first (λ s. s.id == o.restriction && s.org == o.org)
          (λ s. record s { is_active = false }) t.restrictions
      else t.restrictions;
  operations =
      update_first (λ x. x.id == o.id)
        (λ x. record x { status = op_applied; resulting_sequence = some e.sequence }) t.operations;
  queue =
      if o.payload.is_queued
      then t.queue ++ (o.payload.kind, o.payload.request_id) ∷ []
      else t.queue;
}

-- The checks on an operation that is not applied yet.
unfoldable pub check_event : Operation → HistoryEvent → Tables → Result StateProblem (Unit {0})
unfolding is_event_of is_target
check_event o e t = do
  raise_if (not (is_event_of o e)) history_unverified
  org ← or_raise (find (λ g. g.id == o.org) t.orgs) history_unverified
  raise_if (not (org.lifecycle_sequence == o.expected_sequence)) history_unverified
  r ← or_raise (find (is_target o) t.requests) history_unverified
  raise_if (not (same_status r.status o.payload.expected_status)) history_unverified
  s ←
      or_raise (find (λ s. s.id == o.restriction && s.org == o.org) t.restrictions)
        history_unverified
  raise_if (not s.is_active) history_unverified

-- `apply`, with the kind and the request that it returns
unfoldable pub apply : ℕ → HistoryEvent → Tables → Result StateProblem (Tables × RequestKind × ℕ)
unfolding check_event apply_writes
apply operation_id e t = do
  o ← or_raise (find (λ o. o.id == operation_id) t.operations) history_unverified
  raise_if (not (is_decision o.action)) history_unverified
  if is_applied_op o.status
      then ok (t, o.payload.kind, o.payload.request_id)
      else (check_event o e t >> ok (apply_writes o e t, o.payload.kind, o.payload.request_id))

-- `reject`
unfoldable pub reject : ℕ → Tables → Tables
unfolding update_first
reject operation_id t = record t {
  operations =
      update_first (λ o. o.id == operation_id)
        (λ o. if is_pending_op o.status then record o { status = op_rejected } else o) t.operations;
}
