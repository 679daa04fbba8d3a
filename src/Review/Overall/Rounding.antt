-- ===== src/Review/Overall/Rounding.antt =====
-- src/bluelab/modules/review/grading.py: the overall score is the rounded weighted mean.
use native.Mathlib.Nat.{one-le-pow, add-mul, mul-le-mul_left, div-le_of_le-mul}
use bluelab_backend_prod.Prelude.{
  ℕ, ◌+◌, ◌*◌, ◌/◌, ◌^◌, ◌≤◌, ◌<◌, ◌≡◌, true, false, List, [], ◌∷◌, any, All, distinct, map, sum,
  refl, ok, arith,
}
use bluelab_backend_prod.Prelude.Int.{pos_part}
use bluelab_backend_prod.Review.Evaluation.{DimensionResult, tenths, is_empty}
use bluelab_backend_prod.Review.Overall.{
  weighted_overall, quantize_score, weighted, total_weight, is_unbounded,
}

-- A passed payload: the checks of `weighted_overall`, and what it then rounds.
weighted_overall-ok :
    (ds : List DimensionResult) {s : ℕ}
    → weighted_overall ds ≡ ok s
    → (any is_unbounded ds ≡ false) × (total_weight ds ≡ 100) × (s ≡ (2 * weighted ds + 100) / 200)
unfolding weighted_overall quantize_score
weighted_overall-ok ds h = ground arith

weighted-sum :
    (ds : List DimensionResult)
    → weighted ds ≡ sum (map (λ d. pos_part d.weight * tenths d.score) ds)
unfolding weighted
weighted-sum [] = refl
weighted-sum (d ∷ ds) = ground (arith, weighted-sum ds)

total_weight-sum :
    (ds : List DimensionResult) → total_weight ds ≡ sum (map (λ d. pos_part d.weight) ds)
unfolding total_weight
total_weight-sum [] = refl
total_weight-sum (d ∷ ds) = ground (arith, total_weight-sum ds)

-- An overall score is the mean of the dimension scores, each by its weight, with weights that sum
-- to 100, rounded to the nearest tenth, a half up: in tenths, a hundred times the score differs
-- from the sum of the products by at most fifty, and from below by less.
pub weighted_overall-nearest :
    (ds : List DimensionResult) {s : ℕ}
    → weighted_overall ds ≡ ok s
    → let products = sum (map (λ d. pos_part d.weight * tenths d.score) ds) in
      (sum (map (λ d. pos_part d.weight) ds) ≡ 100)
      × (200 * s ≤ 2 * products + 100)
      × (2 * products < 200 * s + 100)
weighted_overall-nearest ds h =
    let (fine, total, rounded) = weighted_overall-ok ds h in
    rw (← weighted-sum ds, ← total_weight-sum ds)
      (total, omega (arith, rounded), omega (arith, rounded))

power-pos : (n : ℕ) → 0 < 10 ^ n
power-pos n = one-le-pow n 10 (omega arith)

-- A score that passes the bounds has at most 100 tenths.
tenths-le_100 : (d : DimensionResult) → is_unbounded d ≡ false → tenths d.score ≤ 100
unfolding is_unbounded tenths
tenths-le_100 d h =
    let few : d.score.digits ≤ 10 * 10 ^ d.score.places = ground arith in
    div-le_of_le-mul (10 ^ d.score.places) (omega (arith, few))

module _ (lo hi : ℕ) where
  abbrev pub IsBetween : DimensionResult → Type 0
  IsBetween d = (lo ≤ tenths d.score) × (tenths d.score ≤ hi)

  weighted_in_bounds :
      (ds : List DimensionResult)
      → All IsBetween ds
      → (total_weight ds * lo ≤ weighted ds) × (weighted ds ≤ total_weight ds * hi)
  unfolding weighted total_weight
  weighted_in_bounds [] h = ground arith
  weighted_in_bounds (d ∷ ds) (h, rest) =
      let ih = weighted_in_bounds ds rest in
      let w = pos_part d.weight in
      (
        rw (add-mul w (total_weight ds) lo) omega (arith, ih.0, mul-le-mul_left w h.0),
        rw (add-mul w (total_weight ds) hi) omega (arith, ih.1, mul-le-mul_left w h.1),
      )

  -- The overall score lies between any bounds that hold for every dimension's score.
  pub weighted_overall_in_bounds :
      (ds : List DimensionResult) {s : ℕ}
      → weighted_overall ds ≡ ok s
      → All IsBetween ds
      → (lo ≤ s) × (s ≤ hi)
  weighted_overall_in_bounds ds h between =
      let passed = weighted_overall-ok ds h in
      let mean = rw passed.1 at (weighted_in_bounds ds between) in
      omega (arith, passed.2, mean.0, mean.1)

bounded-IsBetween :
    (ds : List DimensionResult) → any is_unbounded ds ≡ false → All (IsBetween 0 100) ds
bounded-IsBetween [] h = tt
bounded-IsBetween (d ∷ ds) h =
    ((omega arith, tenths-le_100 d (ground arith)), bounded-IsBetween ds (ground arith))

mean-le_100 :
    (ds : List DimensionResult)
    → any is_unbounded ds ≡ false
    → total_weight ds ≡ 100
    → (2 * weighted ds + 100) / 200 ≤ 100
mean-le_100 ds fine total =
    let mean = rw total at (weighted_in_bounds 0 100 ds (bounded-IsBetween ds fine)) in
    omega (arith, mean.1)

-- Dimensions that pass the checks have an overall score: the mean never leaves the range of the
-- column.
pub weighted_overall-defined :
    (ds : List DimensionResult)
    → is_empty ds ≡ false
    → distinct (map DimensionResult.rubric_dimension_id ds) ≡ true
    → any is_unbounded ds ≡ false
    → total_weight ds ≡ 100
    → (s : ℕ) × (weighted_overall ds ≡ ok s)
unfolding weighted_overall quantize_score
weighted_overall-defined ds some_dimension unique fine total =
    ((2 * weighted ds + 100) / 200, ground (arith, mean-le_100 ds fine total))
