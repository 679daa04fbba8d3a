-- ===== src/Life/Examples.antt =====
-- Runs of the program's operations on attempts that meet the hypotheses of their theorems: a
-- completed attempt, an interruption that comes late, and a grading that is exhausted.
use bluelab_backend_prod.Prelude.{◌≡◌, refl, true, false, ◌&&◌, none, some, [], ◌∷◌, ◌==◌, any}
use bluelab_backend_prod.Calls.Database.{Attempt, completed, no_recording, is_done}
use bluelab_backend_prod.Calls.Interruption.{instance_lost}
use bluelab_backend_prod.Calls.Text.{Unicode}
use bluelab_backend_prod.Life.{World, Action, interrupts, exhausts, Evolves, perform, perform_all}
use bluelab_backend_prod.Life.Runs.{completed_stays}
use bluelab_backend_prod.Life.Steps.{perform-Evolves}
use bluelab_backend_prod.Review.Commentary

abbrev plain : Unicode
plain = record { nfkc = λ s. s; is_other = λ c. false }

abbrev plain_review : Commentary.Unicode
plain_review = record { nfkc = λ s. s; casefold = λ s. s; is_space = λ c. false }

abbrev attempt : Attempt
attempt = record {
  id = 50;
  org = 7;
  team = 8;
  drill = 2;
  rep = some 1;
  candidate = none;
  stage = none;
  self_authored = false;
  restart = false;
  status = completed;
  ended_at = some 60;
  duration_seconds = some 30;
  recording_object_key = none;
  recording_status = no_recording;
}

abbrev world : World
world = record {
  db = record {
    attempts = attempt ∷ [];
    assignments = [];
    recipients = [];
    stages = [];
    candidates = [];
    positions = [];
    consents = [];
    erasures = [];
    transcript = [];
    jobs = [];
    emails = [];
  };
  review = record { attempts = []; scorecards = []; dimension_scores = []; moments = [] };
  faults = [];
}

abbrev late : Action
late = interrupts 70 90 (record {
  attempt_id = 50;
  drill_id = 2;
  rep_account_id = some 1;
  disposition = instance_lost;
  candidate_id = none;
  org_id = some 7;
  team_id = some 8;
})

perform-Evolves_example :
    Evolves world.db.attempts (perform plain plain_review (exhausts 91 50 5) world).db.attempts
perform-Evolves_example = perform-Evolves plain plain_review (exhausts 91 50 5) world

completed_stays_example :
    any
      (λ a. a.id == 50 && is_done a.status)
      (perform_all plain plain_review (late ∷ exhausts 91 50 5 ∷ []) world).db.attempts
    ≡ true
completed_stays_example =
    completed_stays plain plain_review (late ∷ exhausts 91 50 5 ∷ []) world 50 refl
