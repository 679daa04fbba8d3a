-- ===== src/Review/Overall.antt =====
-- src/bluelab/modules/review/grading.py, `weighted_overall`, with `quantize_score` of
-- src/bluelab/platform/db/types.py. Scores that pass the check are whole tenths, and the
-- arithmetic of `Decimal` on them is exact, so it is done in tenths.
pub mod Rounding
use Prim.Native.String.{count}
use bluelab_backend_prod.Prelude.{
  ℕ, ◌-◌, ◌+◌, ◌*◌, ◌/◌, ◌%◌, ◌^◌, String, str_eq, Bool, true, false, ◌&&◌, ◌||◌, not, Option, none,
  some, List, [], ◌∷◌, ◌++◌, map, ◌==◌, ltb, leb, any, all, find, elem, distinct, sum, is_none,
  if◌then◌else◌, Result, ok, err, ◌>>=◌, ◌>>◌, raise_if, or_raise,
}
use bluelab_backend_prod.Prelude.Int.{ℤ, pos, pos_part, ltb_ℤ}
use bluelab_backend_prod.Review.Commentary.{
  Unicode, is_english, is_blank, normalized, contains, join_lines, elem_text,
}
use bluelab_backend_prod.Review.Evaluation.{
  Decimal, is_tenths, tenths, is_below_zero, is_above_ten, is_empty, RubricDimensionInput,
  TranscriptSignal, GradingBasis, DimensionJudgment, EvaluationMoment, EvaluationOutput,
  DimensionResult, MomentResult, ValidatedEvaluation, GradingError, not_english, rubric_not_unique,
  judgments_mismatch, transcript_not_unique, no_participant, not_tenths, evidence_not_unique,
  evidence_unknown, no_moments, dimension_unknown, anchor_unknown, not_participant, not_verbatim,
  concealed, no_dimensions, out_of_bounds, wrong_weight, out_of_range,
}

-- what `weighted_overall` refuses of one dimension
unfoldable pub is_unbounded : DimensionResult → Bool
unfolding is_tenths
is_unbounded d =
    ltb_ℤ d.weight (pos 0)
    || is_below_zero d.score
    || is_above_ten d.score
    || not (is_tenths d.score)

-- sum(Decimal(d.weight) * d.score for d in dimensions), in tenths
unfoldable pub weighted : List DimensionResult → ℕ
weighted [] = 0
weighted (d ∷ ds) = pos_part d.weight * tenths d.score + weighted ds

unfoldable pub total_weight : List DimensionResult → ℕ
total_weight [] = 0
total_weight (d ∷ ds) = pos_part d.weight + total_weight ds

-- `quantize_score` of `whole` tenths over `parts`: half up to one decimal, and at most 10
unfoldable pub quantize_score : ℕ → ℕ → Result GradingError ℕ
quantize_score whole parts =
    let result = (2 * whole + parts) / (2 * parts) in
    if leb result 100 then ok result else err out_of_range

-- The overall score, in tenths. The weights are known to be natural when they are added.
unfoldable pub weighted_overall : List DimensionResult → Result GradingError ℕ
unfolding is_unbounded weighted total_weight quantize_score
weighted_overall dimensions = do
  raise_if (is_empty dimensions) no_dimensions
  raise_if (not (distinct (map DimensionResult.rubric_dimension_id dimensions))) rubric_not_unique
  raise_if (any is_unbounded dimensions) out_of_bounds
  raise_if (not (total_weight dimensions == 100)) wrong_weight
  quantize_score (weighted dimensions) 100
