-- ===== src/Review/Evaluation.antt =====
-- src/bluelab/modules/review/grading.py and src/bluelab/adapters/evaluator_llm.py: what an
-- evaluation carries. `Decimal` is Python's sign, digits and places.
use bluelab_backend_prod.Prelude.{
  ℕ, ◌*◌, ◌/◌, ◌%◌, ◌^◌, String, Bool, true, false, ◌&&◌, not, Option, List, [], ◌∷◌, ◌==◌, ltb,
}
use bluelab_backend_prod.Prelude.Int.{ℤ}

-- not xs
abbrev pub is_empty {ℓ} : {A : Type ℓ} → List A → Bool
is_empty [] = true
is_empty (x ∷ xs) = false

-- (-1)^negative * digits / 10^places
pub record Decimal : Type 0 where
  pub negative : Bool
  pub digits : ℕ
  pub places : ℕ

-- score == score.quantize(Decimal("0.1"))
unfoldable pub is_tenths : Decimal → Bool
is_tenths d = ((d.digits * 10) % 10 ^ d.places) == 0

-- ten times the score, once that is whole
unfoldable pub tenths : Decimal → ℕ
tenths d = (d.digits * 10) / 10 ^ d.places

abbrev pub is_below_zero : Decimal → Bool
is_below_zero d = d.negative && not (d.digits == 0)

abbrev pub is_above_ten : Decimal → Bool
is_above_ten d = not d.negative && ltb (10 * 10 ^ d.places) d.digits

pub record RubricDimensionInput : Type 0 where
  pub dimension_id : ℕ
  pub weight : ℕ

pub record TranscriptSignal : Type 0 where
  pub seq : ℕ
  pub speaker : String
  pub at_ms : ℕ
  pub text : String

pub record GradingBasis : Type 0 where
  pub rubric : List RubricDimensionInput
  pub transcript : List TranscriptSignal

pub record DimensionJudgment : Type 0 where
  pub dimension_id : ℕ
  pub score : Decimal
  pub note : String
  pub evidence_seq : List ℕ

pub record EvaluationMoment : Type 0 where
  pub severity : String
  pub dimension_id : ℕ
  pub transcript_seq : ℕ
  pub quote : Option String
  pub try_instead : Option String
  pub why_it_matters : Option String

pub record EvaluationOutput : Type 0 where
  pub dimensions : List DimensionJudgment
  pub takeaway : String
  pub moments : List EvaluationMoment

pub record DimensionResult : Type 0 where
  pub rubric_dimension_id : ℕ
  pub weight : ℤ
  pub score : Decimal
  pub note : Option String

pub record MomentResult : Type 0 where
  pub at_ms : ℤ
  pub severity : String
  pub rubric_dimension_id : ℕ
  pub transcript_seq : Option ℕ
  pub quote : Option String
  pub try_instead : Option String
  pub why_it_matters : Option String

pub record ValidatedEvaluation : Type 0 where
  pub dimensions : List DimensionResult
  pub moments : List MomentResult
  pub takeaway : String

-- The messages of `EvaluationValidationError` and `ValueError`.
pub data GradingError : Type 0 where
  not_english rubric_not_unique judgments_mismatch transcript_not_unique no_participant :
      GradingError
  not_tenths evidence_not_unique evidence_unknown no_moments dimension_unknown : GradingError
  anchor_unknown not_participant not_verbatim concealed : GradingError
  no_dimensions out_of_bounds wrong_weight out_of_range no_takeaway bad_moment : GradingError
  no_quote bad_meta : GradingError
