-- ===== src/Calls/Examples.antt =====
-- Runs of src/bluelab/calls/admission.py, completion.py and interruption.py that meet the
-- hypotheses of their theorems: a rep with one attempt left of an assignment, and a candidate
-- with a plan of two stages.
use bluelab_backend_prod.Prelude.{
  ℕ, ◌≤◌, ◌≡◌, refl, true, false, not, none, some, List, [], ◌∷◌, ◌++◌, map, is_some, any, same_id,
  ok,
}
use bluelab_backend_prod.Calls.Text.{Unicode}
use bluelab_backend_prod.Calls.Lease.{rep}
use bluelab_backend_prod.Calls.Database.{
  Db, Attempt, Job, grade_attempt, in_progress, no_recording, is_fenced,
}
use bluelab_backend_prod.Calls.Admission.{
  AdmissionRequest, AdmissionResult, Session, admit, new_attempt, has_current_consent,
  subject_fenced, require_call_service_access, consume_allowance, check_stage, is_recipient,
  in_scope, assignment_of, has_room,
}
use bluelab_backend_prod.Calls.Admission.Clearance.{
  admitted_is_cleared, is_erasure_of, is_consent_of,
}
use bluelab_backend_prod.Calls.Admission.Allowance.{Try, spent, room_left, spent-le-room_left}
use bluelab_backend_prod.Calls.Completion.{Completion, complete, participant_fenced}
use bluelab_backend_prod.Calls.Completion.Once.{complete_atomic, as_spoken, as_ended}
use bluelab_backend_prod.Calls.Interruption.{
  Interruption, interrupt, never_established, instance_lost,
}
use bluelab_backend_prod.Calls.Interruption.Terminal.{
  completes, interrupts, effects, attempt_ends_once, attempt_of,
}
use bluelab_backend_prod.Calls.Interruption.Refund.{admit-interrupt}

-- a text that normalises to itself
abbrev plain : Unicode
plain = record { nfkc = λ s. s; is_other = λ c. false }

abbrev db : Db
db = record {
  attempts = [];
  assignments = record { id = 1; org = 7; team = 8; drill = 2; attempts_allowed = 1 } ∷ [];
  recipients = record { assignment = 1; org = 7; team = 8; rep = 3; attempts_used = 0 } ∷ [];
  stages =
      record { id = 21; position = 20; ord = 1 } ∷ record { id = 22; position = 20; ord = 2 } ∷ [];
  candidates = record { id = 4; position = 20; completed_at = none } ∷ [];
  positions = record { id = 20; notify_on_completion = true } ∷ [];
  consents =
      record { account = some 3; candidate = none; notice_version = 1 }
      ∷ record { account = none; candidate = some 4; notice_version = 1 }
      ∷ [];
  erasures = [];
  transcript = [];
  jobs = [];
  emails = [];
}

abbrev session : Session
session = record {
  is_account = true;
  is_rep = true;
  account = some 3;
  org = some 7;
  team = some 8;
  access_allowed = true;
}

abbrev rep_call : AdmissionRequest
rep_call = record {
  kind = rep;
  org_id = 7;
  team_id = 8;
  drill_id = 2;
  account_id = some 3;
  candidate_id = none;
  assessment_stage_id = none;
  self_authored = false;
}

abbrev try_rep : ℕ → Try
try_rep id = record { session = session; version = 1; id = id; request = rep_call }

abbrev rep_attempt : Attempt
rep_attempt = record {
  id = 50;
  org = 7;
  team = 8;
  drill = 2;
  rep = some 3;
  candidate = none;
  stage = none;
  self_authored = false;
  restart = false;
  status = in_progress;
  ended_at = none;
  duration_seconds = none;
  recording_object_key = none;
  recording_status = no_recording;
}

-- the database after the rep's call is admitted
abbrev live_db : Db
live_db = record db {
  attempts = rep_attempt ∷ [];
  recipients = record { assignment = 1; org = 7; team = 8; rep = 3; attempts_used = 1 } ∷ [];
}

abbrev rep_admitted : AdmissionResult
rep_admitted = record { attempt_id = 50; restart = false }

rep_call_runs : admit session 1 50 rep_call db ≡ ok (live_db, rep_admitted)
unfolding admit require_call_service_access subject_fenced has_current_consent consume_allowance
    check_stage new_attempt is_fenced in_scope assignment_of has_room
rep_call_runs = refl

abbrev finished : Completion
finished = record {
  attempt_id = 50;
  org_id = 7;
  team_id = 8;
  rows = record { seq = 1; speaker = "rep"; at_ms = 0; text = "hello"; demeanor_label = none } ∷ [];
  ended_at = 900;
  duration_seconds = 60;
  recording_object_key = none;
  candidate_id = none;
}

abbrev lost : Interruption
lost = record {
  attempt_id = 50;
  drill_id = 2;
  rep_account_id = some 3;
  disposition = instance_lost;
  candidate_id = none;
  org_id = none;
  team_id = none;
}

finished_runs : (complete plain 901 60 finished live_db).1 ≡ true
unfolding complete participant_fenced is_fenced
finished_runs = refl

spent-le-room_left_example :
    spent 2 (some 3) (try_rep 50 ∷ try_rep 51 ∷ []) db
    ≤ room_left db.assignments 2 (some 3) db.recipients
spent-le-room_left_example = spent-le-room_left 2 (some 3) (try_rep 50 ∷ try_rep 51 ∷ []) db

admitted_is_cleared_example :
    (same_id session.org (some 7) ≡ true)
    × (session.access_allowed ≡ true)
    × (any (is_erasure_of rep_call) db.erasures ≡ false)
    × (any (is_consent_of rep_call 1) db.consents ≡ true)
    × (is_some (rep_call.account_id) ≡ not (is_some (rep_call.candidate_id)))
admitted_is_cleared_example = admitted_is_cleared session 1 50 rep_call db rep_call_runs

complete_atomic_example :
    let db' = (complete plain 901 60 finished live_db).0 in
    (db'.transcript ≡ live_db.transcript ++ map (as_spoken plain finished) finished.rows)
    × (db'.attempts ≡ map (as_ended finished) live_db.attempts)
    × (db'.recipients ≡ live_db.recipients)
    × ((extra : List Job) × (db'.jobs
          ≡ (live_db.jobs ++ extra) ++ record { work = grade_attempt 50; org = 7; team = 8 } ∷ []))
complete_atomic_example = complete_atomic plain 901 60 finished live_db finished_runs

attempt_ends_once_example :
    effects plain (interrupts 900 60 lost ∷ completes 901 61 finished ∷ []) live_db ≤ 1
unfolding attempt_of
attempt_ends_once_example =
    attempt_ends_once plain 50 (interrupts 900 60 lost ∷ completes 901 61 finished ∷ []) live_db
      (refl, (refl, tt))

admit-interrupt_example :
    interrupt 902 61 (record lost { disposition = never_established }) live_db ≡ (db, true)
unfolding is_recipient assignment_of
admit-interrupt_example =
    admit-interrupt session 1 50 902 61 rep_call 3 db none none refl refl refl refl rep_call_runs
