-- ===== src/Training/Examples.antt =====
-- Runs of src/bluelab/modules/training/assignment.py that meet the hypotheses of its theorems: a
-- team of two reps, one of which has used up the attempt of the assignment that is replaced.
use bluelab_backend_prod.Prelude.{
  ◌≡◌, refl, arith, true, false, some, [], ◌∷◌, ◌==◌, elem, find, count_if, if◌then◌else◌,
}
use bluelab_backend_prod.Calls.Database.{Assignment}
use bluelab_backend_prod.Drills.{published}
use bluelab_backend_prod.Training.{
  Tables, PutRequest, AssignmentView, put_assignment, assignment_view,
}
use bluelab_backend_prod.Training.Grants.{is_on, put_assignment_grants}
use bluelab_backend_prod.Training.Recipients.{is_grant, is_fresh}

abbrev tables : Tables
tables = record {
  drills = record { id = 2; org = 7; team = 8; self_authored = false; status = published } ∷ [];
  accounts =
      record { id = 1; org = 7; team = 8; is_rep = true }
      ∷ record { id = 3; org = 7; team = 8; is_rep = true }
      ∷ [];
  assignments = record { id = 5; org = 7; team = 8; drill = 2; attempts_allowed = 1 } ∷ [];
  details = record { assignment = 5; due_date = 30; updated_at = 10 } ∷ [];
  recipients = record { assignment = 5; org = 7; team = 8; rep = 3; attempts_used = 1 } ∷ [];
}

abbrev request : PutRequest
request = record {
  org_id = 7;
  team_id = 8;
  drill_id = 2;
  recipient_account_ids = 3 ∷ 1 ∷ 3 ∷ [];
  due_date = 60;
  attempts_allowed = 2;
}

abbrev after : Tables
after = record tables {
  assignments = record { id = 5; org = 7; team = 8; drill = 2; attempts_allowed = 2 } ∷ [];
  details = record { assignment = 5; due_date = 60; updated_at = 20 } ∷ [];
  recipients =
      record { assignment = 5; org = 7; team = 8; rep = 3; attempts_used = 0 }
      ∷ record { assignment = 5; org = 7; team = 8; rep = 1; attempts_used = 0 }
      ∷ [];
}

abbrev shown : AssignmentView
shown = record {
  drill_id = 2;
  attempts_allowed = 2;
  detail = some (record { assignment = 5; due_date = 60; updated_at = 20 });
  recipients = (1, 0) ∷ (3, 0) ∷ [];
}

put_assignment_grants_example :
    (count_if (is_on 2) after.assignments ≡ 1)
    × (a : Assignment) × (find (λ x. x.drill == 2) after.assignments ≡ some a)
    × (a.attempts_allowed ≡ 2)
    × (count_if (is_grant a.id 3) after.recipients ≡ (if elem 3 (3 ∷ 1 ∷ 3 ∷ []) then 1 else 0))
    × (count_if (is_fresh a.id 3) after.recipients ≡ (if elem 3 (3 ∷ 1 ∷ 3 ∷ []) then 1 else 0))
unfolding put_assignment assignment_view
put_assignment_grants_example =
    put_assignment_grants 20 6 request tables 3 {t' = after} {view = shown} (omega arith) refl
