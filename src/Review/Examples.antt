-- ===== src/Review/Examples.antt =====
-- Runs of src/bluelab/modules/review/grading.py that meet the hypotheses of its theorems: a
-- rubric of two dimensions and a call with one utterance of the participant.
use Prim.Native.Char.{code}
use bluelab_backend_prod.Prelude.{
  ℕ, ◌+◌, ◌*◌, ◌≤◌, ◌<◌, ◌≡◌, refl, false, Option, none, some, List, [], ◌∷◌, ◌==◌, count_if, ok,
  sum, map, arith, String,
}
use bluelab_backend_prod.Prelude.Int.{pos, pos_part}
use bluelab_backend_prod.Review.Commentary.{
  Unicode, is_english, is_blank, normalized, contains, join_lines,
}
use bluelab_backend_prod.Review.Evaluation.{
  Decimal, tenths, GradingBasis, EvaluationOutput, DimensionResult, MomentResult,
  ValidatedEvaluation, is_tenths,
}
use bluelab_backend_prod.Review.Grading.{validate_evaluation, require_english}
use bluelab_backend_prod.Review.Grading.Persistable.{validated-persistable}
use bluelab_backend_prod.Review.Overall.{weighted_overall, total_weight}
use bluelab_backend_prod.Review.Overall.Rounding.{weighted_overall-nearest}
use bluelab_backend_prod.Review.Scorecard.{
  MetaValue, text_value, Grading, ReviewDb, write_scorecard, check_meta,
  validate_persistence_payload, check_stored_marked,
}
use bluelab_backend_prod.Review.Scorecard.Once.{Write, is_of, after_all, scored_once, after_write}

abbrev plain : Unicode
plain = record { nfkc = λ s. s; casefold = λ s. s; is_space = λ c. code c == 32 }

-- 6.5 and 7
abbrev score_a : Decimal
score_a = record { negative = false; digits = 65; places = 1 }

abbrev score_b : Decimal
score_b = record { negative = false; digits = 7; places = 0 }

abbrev basis : GradingBasis
basis = record {
  rubric = record { dimension_id = 1; weight = 25 } ∷ record { dimension_id = 2; weight = 75 } ∷ [];
  transcript =
      record { seq = 1; speaker = "participant"; at_ms = 10; text = "what is your budget" } ∷ [];
}

abbrev output : EvaluationOutput
output = record {
  dimensions =
      record { dimension_id = 1; score = score_a; note = "clear"; evidence_seq = 1 ∷ [] }
      ∷ record { dimension_id = 2; score = score_b; note = "good"; evidence_seq = 1 ∷ [] }
      ∷ [];
  takeaway = "ask earlier";
  moments =
      record {
        severity = "amber";
        dimension_id = 1;
        transcript_seq = 1;
        quote = some "your budget";
        try_instead = some "set context";
        why_it_matters = some "trust";
      }
      ∷ [];
}

abbrev dimensions : List DimensionResult
dimensions =
    record { rubric_dimension_id = 1; weight = pos 25; score = score_a; note = some "clear" }
    ∷ record { rubric_dimension_id = 2; weight = pos 75; score = score_b; note = some "good" }
    ∷ []

abbrev moments : List MomentResult
moments =
    record {
      at_ms = pos 10;
      severity = "amber";
      rubric_dimension_id = 1;
      transcript_seq = some 1;
      quote = some "your budget";
      try_instead = some "set context";
      why_it_matters = some "trust";
    }
    ∷ []

abbrev validated : ValidatedEvaluation
validated = record { dimensions = dimensions; moments = moments; takeaway = "ask earlier" }

abbrev meta : List (String × MetaValue)
meta = ("model", text_value "m-1") ∷ []

abbrev grading : Grading
grading = record {
  attempt_id = 5;
  org_id = 7;
  team_id = 8;
  dimensions = dimensions;
  moments = moments;
  takeaway = some "ask earlier";
  grading_meta = meta;
}

abbrev db : ReviewDb
db = record { attempts = []; scorecards = []; dimension_scores = []; moments = [] }

abbrev write : ℕ → Write
write id = record { id = id; fresh = λ k. 100 + k; grading = grading }

abbrev graded_db : ReviewDb
graded_db = after_all plain (write 40 ∷ []) db

abbrev nobody : Option ℕ
nobody = none

evaluation_runs : validate_evaluation plain basis output ("secret price" ∷ []) ≡ ok validated
unfolding validate_evaluation is_english is_tenths contains normalized join_lines
evaluation_runs = refl

overall_runs : weighted_overall dimensions ≡ ok 69
unfolding weighted_overall tenths
overall_runs = refl

write_runs : write_scorecard plain 40 (λ k. 100 + k) grading db ≡ ok (graded_db, some 40)
unfolding write_scorecard weighted_overall tenths is_blank require_english is_english
    check_stored_marked contains after_all after_write
write_runs = refl

rewrite_runs :
    write_scorecard plain 41 (λ k. 100 + k) grading (after_all plain [] graded_db)
    ≡ ok (graded_db, nobody)
unfolding write_scorecard weighted_overall tenths is_blank require_english is_english
    check_stored_marked contains after_all after_write
rewrite_runs = refl

weighted_overall-nearest_example :
    let products = sum (map (λ d. pos_part d.weight * tenths d.score) dimensions) in
    (sum (map (λ d. pos_part d.weight) dimensions) ≡ 100)
    × (200 * 69 ≤ 2 * products + 100)
    × (2 * products < 200 * 69 + 100)
weighted_overall-nearest_example = weighted_overall-nearest dimensions overall_runs

validated-persistable_example :
    validate_persistence_payload plain dimensions moments (some "ask earlier") meta ≡ ok tt
unfolding total_weight check_meta contains
validated-persistable_example =
    validated-persistable plain basis output ("secret price" ∷ []) meta evaluation_runs refl
      (
        record { not_below = refl; not_above = refl },
        (record { not_below = refl; not_above = refl }, tt),
      )
      (refl, tt) refl refl

scored_once_example :
    count_if (is_of 5) (after_all plain (write 40 ∷ write 41 ∷ []) db).scorecards ≤ 1
scored_once_example = scored_once plain 5 (write 40 ∷ write 41 ∷ []) db (omega arith)
