-- ===== src/Review/Attempts/Examples.antt =====
-- Runs of src/bluelab/modules/review/attempts.py that meet the hypotheses of its theorems: a
-- completed attempt with a drill of two dimensions and a transcript of two entries.
use bluelab_backend_prod.Prelude.{
  ℕ, ◌≤◌, ◌≡◌, ◌⊎◌, ◌&&◌, any, refl, false, none, some, [], ◌∷◌, map, sum, find, ◌==◌, count_if,
  arith,
}
use bluelab_backend_prod.Calls.Database.{
  Attempt, TranscriptEntry, grading_pending, completed, no_recording,
}
use bluelab_backend_prod.Review.Attempts.{
  GradingTables, GradingWorkItem, FrozenDrill, text, object, no_entries, scalar, array, a_value,
  no_values, grading_work_item, mark_grading_exhausted, text_fragments,
}
use bluelab_backend_prod.Review.Attempts.Exhausted.{is_open_of, exhausted_once}
use bluelab_backend_prod.Review.Attempts.WorkItem.{IsBySeq, work_item_sound}
use bluelab_backend_prod.Review.Evaluation.{RubricDimensionInput, is_empty}

abbrev attempt : Attempt
attempt = record {
  id = 50;
  org = 7;
  team = 8;
  drill = 2;
  rep = some 1;
  candidate = none;
  stage = none;
  self_authored = false;
  restart = false;
  status = completed;
  ended_at = some 60;
  duration_seconds = some 30;
  recording_object_key = none;
  recording_status = no_recording;
}

abbrev line : ℕ → TranscriptEntry
line n = record {
  attempt = 50;
  seq = n;
  org = 7;
  team = 8;
  speaker = "participant";
  at_ms = n;
  text = "hello";
  demeanor_label = none;
}

abbrev drill : FrozenDrill
drill = record {
  id = 2;
  scenario = some (object no_entries);
  answer_key = some (object no_entries);
  content_hash = some "0123456789abcdef0123456789abcdef0123456789abcdef0123456789abcdef";
  rubric =
      record { id = 11; ord = 2; name = "Needs"; weight = 40; rationale = "asks" }
      ∷ record { id = 12; ord = 1; name = "Close"; weight = 60; rationale = "closes" }
      ∷ [];
  concealed = some (array (a_value (text "price") no_values), scalar);
}

abbrev tables : GradingTables
tables = record {
  attempts = attempt ∷ [];
  scorecards = [];
  drills = drill ∷ [];
  transcript = line 2 ∷ line 1 ∷ [];
}

abbrev item : GradingWorkItem
item = record {
  basis = record {
    rubric =
        record { dimension_id = 12; weight = 60 } ∷ record { dimension_id = 11; weight = 40 } ∷ [];
    transcript =
        record { seq = 1; speaker = "participant"; at_ms = 1; text = "hello" }
        ∷ record { seq = 2; speaker = "participant"; at_ms = 2; text = "hello" }
        ∷ [];
  };
  org_id = 7;
  team_id = 8;
  ended_at = 60;
  concealed_fragments = "price" ∷ [];
}

work_item_sound_example :
    ((a : Attempt) × (find (λ x. x.id == 50) tables.attempts ≡ some a)
      × ((a.status ≡ completed) ⊎ (a.status ≡ grading_pending))
      × (any (λ s. s.attempt == 50) tables.scorecards ≡ false))
    × (sum (map RubricDimensionInput.weight item.basis.rubric) ≡ 100)
    × (is_empty item.basis.rubric ≡ false)
    × (is_empty item.basis.transcript ≡ false)
    × IsBySeq item.basis.transcript
    × (count_if (λ s. s.seq == 2) item.basis.transcript
        ≡ count_if (λ e. e.attempt == 50 && e.seq == 2) tables.transcript)
unfolding grading_work_item text_fragments
work_item_sound_example = work_item_sound tables 50 (λ s. s.seq == 2) {w = item} refl

exhausted_once_example :
    let after = mark_grading_exhausted 90 50 5 (attempt ∷ [], []) in
    (mark_grading_exhausted 91 50 6 after ≡ after) × (count_if (is_open_of 50) after.1 ≤ 1)
exhausted_once_example = exhausted_once 90 50 5 91 6 50 (attempt ∷ []) [] (omega arith)
