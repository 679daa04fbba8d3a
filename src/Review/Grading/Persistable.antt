-- ===== src/Review/Grading/Persistable.antt =====
-- src/bluelab/modules/review/grading.py: what the evaluation check accepts, the check before
-- persistence accepts too.
use bluelab_backend_prod.Prelude.{
  ℕ, ◌≡◌, String, Bool, true, false, some, List, [], ◌∷◌, map, ◌==◌, any, all, elem, distinct, find,
  All, Result, ok, arith, Result-cases, Bool-cases, Option-cases, inl, inr,
}
use bluelab_backend_prod.Prelude.Int.{pos, ltb_ℤ}
use bluelab_backend_prod.Review.Commentary.{Unicode, is_english, elem_text}
use bluelab_backend_prod.Review.Evaluation.{
  is_tenths, is_below_zero, is_above_ten, is_empty, GradingBasis, TranscriptSignal,
  RubricDimensionInput, DimensionJudgment, EvaluationMoment, EvaluationOutput, DimensionResult,
  MomentResult, ValidatedEvaluation, GradingError,
}
use bluelab_backend_prod.Review.Grading.{
  require_english, check_judgment, check_each, check_marked, check_moment, is_marked,
  validate_evaluation, same_set,
}
use bluelab_backend_prod.Review.Overall.{is_unbounded, total_weight}
use bluelab_backend_prod.Review.Overall.Rounding.{weighted_overall-defined}
use bluelab_backend_prod.Review.Scorecard.{
  MetaValue, check_meta, check_notes, check_stored_marked, check_stored_moment,
  check_stored_moments, is_missing, validate_persistence_payload,
}

module _ {ℓ κ} {A : Type ℓ} {B : Type κ} (f : A → Result GradingError B) where
  pub check_each-cons :
      (x : A) (xs : List A) {ys : List B}
      → check_each f (x ∷ xs) ≡ ok ys
      → (y : B) × (rest : List B) × (f x ≡ ok y) × (check_each f xs ≡ ok rest) × (ys ≡ y ∷ rest)
  unfolding check_each
  check_each-cons x xs h = elim (Result-cases (f x)) [
    | inr (e, bad) ↦ ground arith
    | inl (y, fine) ↦ elim (Result-cases (check_each f xs)) [
      | inr (e, bad) ↦ ground arith
      | inl (rest, done) ↦ (y, rest, fine, done, ground arith)
    ]
  ]

-- The bounds that the evaluator's response model puts on a score.
pub record IsInRange (j : DimensionJudgment) : Type 0 where
  pub not_below : is_below_zero j.score ≡ false
  pub not_above : is_above_ten j.score ≡ false

module _ (u : Unicode) (basis : GradingBasis) where
  check_judgment-ok :
      (j : DimensionJudgment) {d : DimensionResult}
      → check_judgment u basis j ≡ ok d
      → (d.rubric_dimension_id ≡ j.dimension_id)
        × (is_english u d.note ≡ true)
        × (d.score ≡ j.score)
        × (is_tenths j.score ≡ true)
        × (ltb_ℤ d.weight (pos 0) ≡ false)
  unfolding check_judgment require_english
  check_judgment-ok j h =
      elim (Option-cases (find (λ r. r.dimension_id == j.dimension_id) basis.rubric)) [
        | inl missing ↦ ground arith
        | inr (r, found) ↦ ground arith
      ]

  check_marked-stored :
      (m : EvaluationMoment) (anchor : TranscriptSignal) (r : MomentResult)
      → r.quote ≡ m.quote
      → r.try_instead ≡ m.try_instead
      → r.why_it_matters ≡ m.why_it_matters
      → check_marked u anchor m ≡ ok tt
      → check_stored_marked u r ≡ ok tt
  unfolding check_marked check_stored_marked require_english
  check_marked-stored m anchor r q t w h = ground arith

  check_moment-stored :
      (ids : List ℕ) (m : EvaluationMoment) {r : MomentResult}
      → check_moment u basis m ≡ ok r
      → elem_text m.severity ("green" ∷ "amber" ∷ "red" ∷ []) ≡ true
      → (elem m.dimension_id (map RubricDimensionInput.dimension_id basis.rubric) ≡ true
          → elem m.dimension_id ids ≡ true)
      → check_stored_moment u ids r ≡ ok tt
  unfolding check_moment check_stored_moment
  check_moment-stored ids m {r} h known covers =
      elim (Option-cases (find (λ e. e.seq == m.transcript_seq) basis.transcript)) [
        | inl missing ↦ ground arith
        | inr (anchor, found) ↦ elim (Bool-cases (is_marked m.severity)) [
          | inl marked ↦ ground (arith, check_marked-stored m anchor r)
          | inr plain ↦ ground arith
        ]
      ]

  notes-ok :
      (js : List DimensionJudgment) {ds : List DimensionResult}
      → check_each (check_judgment u basis) js ≡ ok ds
      → check_notes u ds ≡ ok tt
  unfolding check_each check_notes require_english
  notes-ok [] h = ground arith
  notes-ok (j ∷ js) h =
      let (d, rest, first, others, same) = check_each-cons (check_judgment u basis) j js h in
      rw same (ground (arith, check_judgment-ok j {d = d} first, notes-ok js {ds = rest} others))

  ids-ok :
      (js : List DimensionJudgment) {ds : List DimensionResult}
      → check_each (check_judgment u basis) js ≡ ok ds
      → (map DimensionResult.rubric_dimension_id ds ≡ map DimensionJudgment.dimension_id js)
        × (is_empty ds ≡ is_empty js)
  unfolding check_each
  ids-ok [] h = ground arith
  ids-ok (j ∷ js) h =
      let (d, rest, first, others, same) = check_each-cons (check_judgment u basis) j js h in
      rw same (ground (arith, check_judgment-ok j {d = d} first, ids-ok js {ds = rest} others))

  bounds-ok :
      (js : List DimensionJudgment) {ds : List DimensionResult}
      → All IsInRange js
      → check_each (check_judgment u basis) js ≡ ok ds
      → any is_unbounded ds ≡ false
  unfolding check_each is_unbounded
  bounds-ok [] range h = ground arith
  bounds-ok (j ∷ js) range h =
      let (d, rest, first, others, same) = check_each-cons (check_judgment u basis) j js h in
      rw same (
        ground (
          arith,
          check_judgment-ok j {d = d} first,
          range.0,
          bounds-ok js {ds = rest} range.1 others,
        ))

  moments-ok :
      (ids : List ℕ) (ms : List EvaluationMoment) {rs : List MomentResult}
      → All (λ m. elem_text m.severity ("green" ∷ "amber" ∷ "red" ∷ []) ≡ true) ms
      → ((i : ℕ)
          → elem i (map RubricDimensionInput.dimension_id basis.rubric) ≡ true
          → elem i ids ≡ true)
      → check_each (check_moment u basis) ms ≡ ok rs
      → (check_stored_moments u ids rs ≡ ok tt) × (is_empty rs ≡ is_empty ms)
  unfolding check_each check_stored_moments
  moments-ok ids [] known covers h = ground arith
  moments-ok ids (m ∷ ms) known covers h =
      let (r, rest, first, others, same) = check_each-cons (check_moment u basis) m ms h in
      let here = check_moment-stored ids m {r = r} first known.0 (covers m.dimension_id) in
      let there = moments-ok ids ms {rs = rest} known.1 covers others in
      rw same (ground (arith, here, there))

all-elem : (p : ℕ → Bool) (ys : List ℕ) (i : ℕ) → all p ys ≡ true → elem i ys ≡ true → p i ≡ true
all-elem p [] i h e = cc
all-elem p (y ∷ ys) i h e = ground (arith, all-elem p ys i)

same_set-covers :
    (xs ys : List ℕ) → same_set xs ys ≡ true → (i : ℕ) → elem i ys ≡ true → elem i xs ≡ true
same_set-covers xs ys h i e = all-elem (λ y. elem y xs) ys i (ground arith) e

missing-english :
    (u : Unicode) (s : String) → is_english u (some s) ≡ true → is_missing u (some s) ≡ false
unfolding is_english is_missing
missing-english u s h = ground arith

-- The steps of a passed evaluation.
module _ (u : Unicode) (basis : GradingBasis) (out : EvaluationOutput)
    (concealed_fragments : List String) where
  evaluation-ok :
      {v : ValidatedEvaluation}
      → validate_evaluation u basis out concealed_fragments ≡ ok v
      → (distinct (map DimensionJudgment.dimension_id out.dimensions) ≡ true)
        × (same_set
              (map DimensionJudgment.dimension_id out.dimensions)
              (map RubricDimensionInput.dimension_id basis.rubric)
            ≡ true)
        × (is_english u (some out.takeaway) ≡ true)
        × (is_empty out.moments ≡ false)
        × (check_each (check_judgment u basis) out.dimensions ≡ ok v.dimensions)
        × (check_each (check_moment u basis) out.moments ≡ ok v.moments)
        × (v.takeaway ≡ out.takeaway)
  unfolding validate_evaluation require_english
  evaluation-ok h = elim (Result-cases (check_each (check_judgment u basis) out.dimensions)) [
    | inr (e, bad) ↦ absurd (ground arith)
    | inl (ds, judged) ↦ elim (Result-cases (check_each (check_moment u basis) out.moments)) [
      | inr (e, bad) ↦ absurd (ground arith)
      | inl (ms, moved) ↦ ground arith
    ]
  ]

-- An evaluation that is accepted is accepted for persistence too, whatever the grading metadata
-- that pass their own check, if the response model's bounds hold (scores from 0 to 10, a known
-- severity, at least one dimension) and the weights of the dimensions add up to 100.
pub validated-persistable :
    (u : Unicode) (basis : GradingBasis) (out : EvaluationOutput)
    (concealed_fragments : List String) (meta : List (String × MetaValue)) {v : ValidatedEvaluation}
    → validate_evaluation u basis out concealed_fragments ≡ ok v
    → is_empty out.dimensions ≡ false
    → All IsInRange out.dimensions
    → All (λ m. elem_text m.severity ("green" ∷ "amber" ∷ "red" ∷ []) ≡ true) out.moments
    → total_weight v.dimensions ≡ 100
    → check_meta u meta ≡ ok tt
    → validate_persistence_payload u v.dimensions v.moments (some v.takeaway) meta ≡ ok tt
unfolding validate_persistence_payload require_english
validated-persistable u basis out concealed_fragments meta {v} h some_dimension range known full
      content_free =
    let passed = evaluation-ok u basis out concealed_fragments {v = v} h in
    let ids = ids-ok u basis out.dimensions {ds = v.dimensions} passed.4 in
    let overall =
      weighted_overall-defined v.dimensions (ground (arith, ids.1)) (rw ids.0 passed.0)
        (bounds-ok u basis out.dimensions {ds = v.dimensions} range passed.4) full in
    let covers =
      same_set-covers (map DimensionJudgment.dimension_id out.dimensions)
        (map RubricDimensionInput.dimension_id basis.rubric) passed.1 in
    let moments =
      moments-ok u basis (map DimensionJudgment.dimension_id out.dimensions) out.moments
        {rs = v.moments} known covers passed.5 in
    rw ids.0 (
      ground (
        arith,
        overall.1,
        passed.6,
        missing-english u out.takeaway passed.2,
        notes-ok u basis out.dimensions {ds = v.dimensions} passed.4,
        moments,
      ))
