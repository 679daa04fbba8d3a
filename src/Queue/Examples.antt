-- ===== src/Queue/Examples.antt =====
-- Runs of src/bluelab/platform/queue that meet the hypotheses of its theorems.
use bluelab_backend_prod.Prelude.{
  ℕ, ◌≡◌, ◌≢◌, Bool, true, false, err, arith, refl, none, some, [], ◌∷◌, ok,
}
use bluelab_backend_prod.Queue.{
  uuid, Body, envelope, read, JobEnvelope, version, incompatible_payload,
}
use bluelab_backend_prod.Queue.Catalog.{Payload, WorkDb, account, canonical_id, grade_attempt}
use bluelab_backend_prod.Queue.Delivery.{deferral_spends_budget}
use bluelab_backend_prod.Queue.Worker.{
  JobRegistration, another_error, execute, job_after, retryable_failure, returned, todo,
}

abbrev extra : Body ℕ
extra = ("trace_id", uuid 5) ∷ []

-- A grading that always fails, on attempt 9 of rep 4; its exhaustion marks the database with 1.
abbrev all_served : WorkDb ℕ → ℕ → Bool
all_served db org = true

abbrev grading : JobRegistration all_served
grading = record {
  lane = grade_attempt;
  handler = λ env db. err another_error;
  on_exhausted = λ env db. ok (record db { rest = 1 });
}

abbrev db : WorkDb ℕ
db = record {
  attempts = (record { key = 9; account_id = some 4; candidate_id = none }) ∷ [];
  drills = [];
  uploads = [];
  email_sends = [];
  erasure_requests = [];
  rest = 0;
}

abbrev erased_db : WorkDb ℕ
erased_db = record db { erasure_requests = (account, 4) ∷ [] }

abbrev grade_9 : Payload
grade_9 = ("attempt_id", canonical_id 9) ∷ []

abbrev job : JobEnvelope Payload
job = record { version = 1; org_id = 7; team_id = none; args = some grade_9 }

-- Of that job, the execution on the erased rep leaves the database as it was.
is_left :
    execute all_served grading 0 (envelope Payload grade_9 7 none) erased_db ≡ (erased_db, returned)
unfolding execute envelope
is_left = refl

abbrev newer_body : Body Payload
newer_body = ("v", version 2) ∷ []

is_newer : read Payload newer_body ≡ err incompatible_payload
unfolding read
is_newer = refl

deferral_spends_budget_example :
    (job_after false 5 300 grade_attempt 4 (execute all_served grading 4 newer_body db).1
      ≡ todo 5 5)
    × ((execute all_served grading 5 (envelope Payload grade_9 7 none) db).1 ≢ retryable_failure)
deferral_spends_budget_example =
    deferral_spends_budget all_served grading 5 300 4 newer_body (envelope Payload grade_9 7 none)
      db db is_newer (omega arith)
