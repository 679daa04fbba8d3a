-- ===== src/Offboarding/Commands.antt =====
-- src/bluelab/lifecycle: the shape that the staged commands share, and that of their application.
use bluelab_backend_prod.Prelude.{
  ℕ, ◌+◌, Bool, ◌&&◌, ◌||◌, not, Option, none, some, [], ◌∷◌, ◌++◌, ◌==◌, same_id, if◌then◌else◌,
  Result, ok, ◌>>=◌, ◌>>◌, raise_if, or_raise,
}
use bluelab_backend_prod.Offboarding.{
  LifecycleAction, LifecycleOperation, LifecycleOrder, LifecycleEvent, LifecycleTables,
  LifecycleProblem, Org, find_org, find_operation, not_found, operation_id_reuse, sequence_stale,
  history_unverified,
}
use bluelab_backend_prod.Subjects.{
  is_pending_op, is_rejected_op, op_pending, op_applied, op_rejected, update_first,
}

-- An operation whose id is known is returned if it is of the same command.
unfoldable pub replayed :
    LifecycleOrder
    → (LifecycleOperation → Bool)
    → LifecycleOperation
    → Result LifecycleProblem LifecycleOperation
replayed c same o = do
  raise_if
      (not (o.org == c.org_id)
        || not (same o)
        || not (same_id o.actor (some c.actor_id))
        || not (same_id o.digest (some c.digest)))
      operation_id_reuse
  raise_if (is_rejected_op o.status) sequence_stale
  ok o

-- The organisation, if it stands where the history and the command say.
unfoldable pub current_org : LifecycleOrder → LifecycleTables → Result LifecycleProblem Org
current_org c t = do
  g ← or_raise (find_org c.org_id t) not_found
  raise_if (not (g.lifecycle_sequence == c.head_sequence)) history_unverified
  raise_if (not (c.expected_sequence == c.head_sequence)) sequence_stale
  ok g

unfoldable pub add_operation :
    LifecycleTables → LifecycleOperation → LifecycleTables × LifecycleOperation
add_operation t o = (record t { operations = t.operations ++ o ∷ [] }, o)

-- The shape of every prepared command: a known id is replayed, another is checked and added.
unfoldable pub stage_command :
    LifecycleOrder
    → (LifecycleOperation → Bool)
    → Result LifecycleProblem LifecycleOperation
    → LifecycleTables
    → Result LifecycleProblem (LifecycleTables × LifecycleOperation)
unfolding replayed add_operation
stage_command c same new t = elim (find_operation c.operation_id t) [
  | some o ↦ replayed c same o >>= λ o'. ok (t, o')
  | none ↦ new >>= λ o. ok (add_operation t o)
]

-- The row of a command that is staged.
unfoldable pub new_row :
    LifecycleOrder → Option ℕ → Option ℕ → ℕ → LifecycleAction → Option ℕ → LifecycleOperation
new_row c term episode reason action deadline = record {
  id = c.operation_id;
  org = c.org_id;
  term = term;
  episode = episode;
  restriction = none;
  action = action;
  status = op_pending;
  expected_sequence = c.expected_sequence;
  resulting_sequence = none;
  actor = some c.actor_id;
  reason = reason;
  requested_deadline = deadline;
  digest = some c.digest;
}

-- The event that an operation waits for.
unfoldable pub is_accepted : LifecycleOperation → LifecycleEvent → Bool
is_accepted o e =
    is_pending_op o.status
    && e.operation_id == o.id
    && e.org_id == o.org
    && e.matches o.action
    && e.sequence == o.expected_sequence + 1

unfoldable pub is_authored : LifecycleOperation → LifecycleEvent → Bool
is_authored o e = same_id e.actor_id o.actor && e.reason == o.reason

-- An accepted operation is marked, and its organisation is moved to the event's sequence.
unfoldable pub accept_operation :
    LifecycleOperation → LifecycleEvent → (Org → Org) → LifecycleTables → LifecycleTables
unfolding update_first
accept_operation o e f t = record t {
  orgs =
      update_first (λ g. g.id == o.org) (λ g. record (f g) { lifecycle_sequence = e.sequence })
        t.orgs;
  operations =
      update_first (λ x. x.id == o.id)
        (λ x. record x { status = op_applied; resulting_sequence = some e.sequence }) t.operations;
}

-- The organisation of an accepted operation, at the sequence that the operation expects.
unfoldable pub accepted_org :
    LifecycleOperation → LifecycleEvent → LifecycleTables → Result LifecycleProblem Org
unfolding is_accepted is_authored
accepted_org o e t = do
  raise_if (not (is_accepted o e) || not (is_authored o e)) history_unverified
  g ← or_raise (find_org o.org t) history_unverified
  raise_if (not (g.lifecycle_sequence == o.expected_sequence)) history_unverified
  ok g

-- `reject_term`
unfoldable pub reject_term : ℕ → LifecycleTables → LifecycleTables
unfolding update_first
reject_term id t = record t {
  operations =
      update_first (λ o. o.id == id)
        (λ o. if is_pending_op o.status then record o { status = op_rejected } else o) t.operations;
}
