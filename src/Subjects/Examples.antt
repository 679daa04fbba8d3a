-- ===== src/Subjects/Examples.antt =====
-- Runs of src/bluelab/lifecycle/subject_states.py that meet the hypotheses of its theorems: a
-- pending export request that an operator rejects.
use bluelab_backend_prod.Prelude.{ℕ, ◌≡◌, refl, true, false, none, some, [], ◌∷◌, any, All}
use bluelab_backend_prod.Subjects.{
  RequestKind, allowed, export, pending, rejected, Command, Operation, Tables, op_pending,
  release_restriction,
}
use bluelab_backend_prod.Subjects.Moves.{Moves, IsLawful}
use bluelab_backend_prod.Subjects.Apply.{HistoryEvent, apply}
use bluelab_backend_prod.Subjects.Prepare.{Decision}
use bluelab_backend_prod.Subjects.Runs.{
  applies, prepares, rejects, perform, perform-Moves, perform_all, is_in, closed_stays,
}

abbrev digest : RequestKind → ℕ → Command → ℕ
digest kind id command = 77

abbrev tables : Tables
tables = record {
  orgs = record { id = 7; lifecycle_sequence = 4 } ∷ [];
  requests =
      record {
        id = 1;
        org = 7;
        kind = export;
        status = pending;
        restriction = some 9;
        has_bundle = false;
        response_due_at = none;
        closed_at = none;
        delivered_at = none;
      }
      ∷ [];
  restrictions = record { id = 9; org = 7; is_active = true; related_request = some 1 } ∷ [];
  operations = [];
  queue = [];
}

abbrev decision : Decision
decision = record {
  kind = export;
  request_id = 1;
  operation_id = 30;
  actor_id = 5;
  command = record { expected_status = pending; status = rejected; reason = 6 };
  head_sequence = 4;
  is_armed = false;
}

abbrev operation : Operation
operation = record {
  id = 30;
  org = 7;
  action = release_restriction;
  status = op_pending;
  expected_sequence = 4;
  resulting_sequence = none;
  actor = 5;
  reason = 6;
  restriction = 9;
  payload = record {
    kind = export;
    request_id = 1;
    expected_status = pending;
    status = rejected;
    response_due_at = none;
    is_queued = false;
  };
  digest = 77;
}

abbrev staged : Tables
staged = record tables { operations = operation ∷ [] }

abbrev closed : Tables
closed = record tables {
  requests =
      record {
        id = 1;
        org = 7;
        kind = export;
        status = rejected;
        restriction = some 9;
        has_bundle = false;
        response_due_at = none;
        closed_at = some 100;
        delivered_at = none;
      }
      ∷ [];
}

abbrev accepted : HistoryEvent
accepted = record {
  operation_id = 30;
  org_id = 7;
  action = release_restriction;
  actor_id = some 5;
  reason = 6;
  sequence = 5;
  accepted_at = 100;
  matches = λ p. true;
}

staged-IsLawful : All IsLawful staged.operations
unfolding allowed
staged-IsLawful = (record { lawful = refl }, tt)

perform-Moves_example :
    Moves staged.requests (perform digest (applies 30 accepted) staged).requests
    × All IsLawful (perform digest (applies 30 accepted) staged).operations
perform-Moves_example = perform-Moves digest (applies 30 accepted) staged staged-IsLawful

-- That step rejects the request.
is_rejected : (perform digest (applies 30 accepted) staged).requests ≡ closed.requests
unfolding perform apply
is_rejected = refl

closed_stays_example :
    any
      (is_in 1 rejected)
      (perform_all digest (prepares 100 decision ∷ rejects 30 ∷ []) closed).requests
    ≡ true
closed_stays_example =
    closed_stays digest (prepares 100 decision ∷ rejects 30 ∷ []) closed 1 rejected tt refl refl
