-- ===== src/Review/Grading.antt =====
-- src/bluelab/modules/review/grading.py: what an evaluation must satisfy. A raise is an error
-- value.
pub mod Persistable
use Prim.Native.String.{count}
use bluelab_backend_prod.Prelude.{
  ℕ, ◌-◌, ◌+◌, ◌*◌, ◌/◌, ◌%◌, ◌^◌, String, str_eq, Bool, true, false, ◌&&◌, ◌||◌, not, Option, none,
  some, List, [], ◌∷◌, ◌++◌, map, ◌==◌, ltb, leb, any, all, find, elem, distinct, sum, is_none,
  if◌then◌else◌, Result, ok, err, ◌>>=◌, ◌>>◌, raise_if, or_raise,
}
use bluelab_backend_prod.Prelude.Int.{ℤ, pos, pos_part, ltb_ℤ}
use bluelab_backend_prod.Review.Commentary.{
  Unicode, is_english, is_blank, normalized, contains, join_lines, elem_text,
}
use bluelab_backend_prod.Review.Evaluation.{
  Decimal, is_tenths, tenths, is_below_zero, is_above_ten, is_empty, RubricDimensionInput,
  TranscriptSignal, GradingBasis, DimensionJudgment, EvaluationMoment, EvaluationOutput,
  DimensionResult, MomentResult, ValidatedEvaluation, GradingError, not_english, rubric_not_unique,
  judgments_mismatch, transcript_not_unique, no_participant, not_tenths, evidence_not_unique,
  evidence_unknown, no_moments, dimension_unknown, anchor_unknown, not_participant, not_verbatim,
  concealed, no_dimensions, out_of_bounds, wrong_weight, out_of_range,
}

unfoldable pub require_english : Unicode → Option String → Result GradingError (Unit {0})
require_english u value = raise_if (not (is_english u value)) not_english

-- one round of the loop over `output.dimensions`
unfoldable pub check_judgment :
    Unicode → GradingBasis → DimensionJudgment → Result GradingError DimensionResult
unfolding require_english
check_judgment u basis j = do
  require_english u (some j.note)
  raise_if (not (is_tenths j.score)) not_tenths
  raise_if (not (distinct j.evidence_seq)) evidence_not_unique
  raise_if (any (λ seq. not (elem seq (map TranscriptSignal.seq basis.transcript))) j.evidence_seq)
      evidence_unknown
  rubric ← or_raise (find (λ r. r.dimension_id == j.dimension_id) basis.rubric) judgments_mismatch
  ok (record {
    rubric_dimension_id = j.dimension_id;
    weight = pos rubric.weight;
    score = j.score;
    note = some j.note;
  })

unfoldable pub check_each {ℓ κ} :
    {A : Type ℓ} {B : Type κ} → (A → Result GradingError B) → List A → Result GradingError (List B)
check_each f [] = ok []
check_each f (x ∷ xs) = f x >>= λ y. check_each f xs >>= λ ys. ok (y ∷ ys)

-- severity in {"amber", "red"}
abbrev pub is_marked : String → Bool
is_marked s = elem_text s ("amber" ∷ "red" ∷ [])

-- not moment.quote
abbrev pub is_unquoted : Option String → Bool
is_unquoted none = true
is_unquoted (some q) = str_eq q ""

-- the checks of an amber or red moment
unfoldable pub check_marked :
    Unicode → TranscriptSignal → EvaluationMoment → Result GradingError (Unit {0})
unfolding require_english
check_marked u anchor m = do
  raise_if (not (str_eq anchor.speaker "participant")) not_participant
  raise_if
      (is_unquoted m.quote
        || (elim m.quote [ none ↦ true | some q ↦ not (contains anchor.text q) ]))
      not_verbatim
  require_english u m.try_instead
  require_english u m.why_it_matters

-- one round of the loop over `output.moments`
unfoldable pub check_moment :
    Unicode → GradingBasis → EvaluationMoment → Result GradingError MomentResult
unfolding check_marked
check_moment u basis m = do
  raise_if (not (elem m.dimension_id (map RubricDimensionInput.dimension_id basis.rubric)))
      dimension_unknown
  anchor ← or_raise (find (λ e. e.seq == m.transcript_seq) basis.transcript) anchor_unknown
  if is_marked m.severity then check_marked u anchor m else ok tt
  ok (record {
    at_ms = pos anchor.at_ms;
    severity = m.severity;
    rubric_dimension_id = m.dimension_id;
    transcript_seq = some m.transcript_seq;
    quote = m.quote;
    try_instead = m.try_instead;
    why_it_matters = m.why_it_matters;
  })

abbrev pub or_empty : Option String → String
or_empty none = ""
or_empty (some s) = s

-- what the loop over the moments adds to `comments`
unfoldable pub marked_comments : List EvaluationMoment → List String
marked_comments [] = []
marked_comments (m ∷ ms) =
    let rest = marked_comments ms in
    if is_marked m.severity then or_empty m.try_instead ∷ or_empty m.why_it_matters ∷ rest else rest

-- `comments`, in order
unfoldable pub comments_of : EvaluationOutput → List String
unfolding marked_comments
comments_of out =
    out.takeaway ∷ (map DimensionJudgment.note out.dimensions ++ marked_comments out.moments)

-- len(candidate) >= 4 and candidate in normalized_comments
unfoldable pub reveals : Unicode → String → String → Bool
reveals u comments fragment =
    leb 4 (count (normalized u fragment)) && contains comments (normalized u fragment)

abbrev pub is_participant : TranscriptSignal → Bool
is_participant e = str_eq e.speaker "participant"

-- set(xs) == set(ys)
abbrev pub same_set : List ℕ → List ℕ → Bool
same_set xs ys = all (λ x. elem x ys) xs && all (λ y. elem y xs) ys

unfoldable pub validate_evaluation :
    Unicode
    → GradingBasis
    → EvaluationOutput
    → List String
    → Result GradingError ValidatedEvaluation
unfolding check_judgment check_moment check_each comments_of reveals
validate_evaluation u basis out concealed_fragments = do
  let rubric_ids = map RubricDimensionInput.dimension_id basis.rubric
  let judgment_ids = map DimensionJudgment.dimension_id out.dimensions
  raise_if (not (distinct rubric_ids)) rubric_not_unique
  raise_if (not (distinct judgment_ids) || not (same_set judgment_ids rubric_ids))
      judgments_mismatch
  raise_if (not (distinct (map TranscriptSignal.seq basis.transcript))) transcript_not_unique
  raise_if (not (any is_participant basis.transcript)) no_participant
  require_english u (some out.takeaway)
  dimensions ← check_each (check_judgment u basis) out.dimensions
  raise_if (is_empty out.moments) no_moments
  moments ← check_each (check_moment u basis) out.moments
  raise_if (any (reveals u (join_lines (map (normalized u) (comments_of out)))) concealed_fragments)
      concealed
  ok (record { dimensions = dimensions; moments = moments; takeaway = out.takeaway })
