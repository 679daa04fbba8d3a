-- ===== src/Assessment/Examples.antt =====
-- Runs of src/bluelab/modules/assessment/service.py that meet the hypotheses of its theorems: a
-- candidate with a plan of two stages, the first of which was interrupted once.
use bluelab_backend_prod.Prelude.{
  String, Bool, ◌≡◌, refl, true, false, none, some, List, [], ◌∷◌, find, ok,
}
use bluelab_backend_prod.Calls.Database.{Db, plan, interrupted, no_recording}
use bluelab_backend_prod.Calls.Admission.{next_stage, admit_candidate_stage}
use bluelab_backend_prod.Assessment.{Portal, StageView, next, is_next, stage_views, startable_stage}
use bluelab_backend_prod.Assessment.Preflight.{Legal}
use bluelab_backend_prod.Assessment.Stages.{stage_of, offered_is_next, startable_is_admitted}

abbrev db : Db
db = record {
  attempts =
      record {
        id = 50;
        org = 7;
        team = 8;
        drill = 2;
        rep = none;
        candidate = some 4;
        stage = some 21;
        self_authored = false;
        restart = false;
        status = interrupted;
        ended_at = none;
        duration_seconds = none;
        recording_object_key = none;
        recording_status = no_recording;
      }
      ∷ [];
  assignments = [];
  recipients = [];
  stages =
      record { id = 22; position = 20; ord = 2 } ∷ record { id = 21; position = 20; ord = 1 } ∷ [];
  candidates = record { id = 4; position = 20; completed_at = none } ∷ [];
  positions = record { id = 20; notify_on_completion = true } ∷ [];
  consents = [];
  erasures = [];
  transcript = [];
  jobs = [];
  emails = [];
}

abbrev portal : Portal
portal = record { db = db; passed = []; accepted = [] }

abbrev opened : Portal
opened = record { db = db; passed = 4 ∷ []; accepted = 4 ∷ [] }

abbrev legal : Legal
legal = record { notice = some 1; terms = some 1; privacy = some 1 }

abbrev checks : List (String × Bool)
checks = ("microphone", true) ∷ ("connection", true) ∷ []

abbrev first : StageView
first = record {
  stage = record { id = 21; position = 20; ord = 1 };
  status = next;
  restart_available = true;
}

offered_is_next_example :
    stage_of (find (λ v. is_next v.status) (stage_views db 4)) ≡ next_stage db 4
offered_is_next_example = offered_is_next db 4

startable_is_admitted_example : admit_candidate_stage db 4 (some 21) ≡ ok true
unfolding plan startable_stage
startable_is_admitted_example = startable_is_admitted opened 4 21 {v = first} refl refl
