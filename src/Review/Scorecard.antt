-- ===== src/Review/Scorecard.antt =====
-- src/bluelab/modules/review/grading.py: T-3, write the scorecard once. The unique index on
-- `scorecard.attempt_id` makes the insert do nothing on a second row. The ids that `new_id()`
-- yields are arguments.

pub mod Once
use Prim.Native.String.{count}
use bluelab_backend_prod.Prelude.{
  ℕ, ◌+◌, String, Bool, true, false, ◌&&◌, ◌||◌, not, Option, none, some, List, [], ◌∷◌, ◌++◌, map,
  ◌==◌, ltb, leb, any, elem, if◌then◌else◌, Result, ok, err, ◌>>=◌, ◌>>◌, raise_if,
}
use bluelab_backend_prod.Prelude.Int.{ℤ, pos, ltb_ℤ}
use bluelab_backend_prod.Calls.Database.{Attempt, Status, completed, grading_pending, graded}
use bluelab_backend_prod.Review.Commentary.{Unicode, is_english, is_blank, contains, elem_text}
use bluelab_backend_prod.Review.Evaluation.{
  Decimal, DimensionResult, MomentResult, GradingError, not_english, no_takeaway, no_moments,
  bad_moment, no_quote, bad_meta, is_empty,
}
use bluelab_backend_prod.Review.Grading.{require_english, is_marked, is_unquoted}
use bluelab_backend_prod.Review.Overall.{weighted_overall}

-- A value of `grading_meta`: a text, another scalar, or anything else.
pub data MetaValue : Type 0 where
  text_value : String → MetaValue
  scalar other : MetaValue

-- `forbidden`
abbrev pub forbidden : List String
forbidden = "prompt" ∷ "response" ∷ "transcript" ∷ "quote" ∷ "audio" ∷ "recording" ∷ []

abbrev pub is_bounded_value : MetaValue → Bool
is_bounded_value (text_value s) = leb (count s) 200
is_bounded_value scalar = true
is_bounded_value other = false

unfoldable pub check_meta : Unicode → List (String × MetaValue) → Result GradingError (Unit {0})
check_meta u [] = ok tt
check_meta u ((key, value) ∷ rest) = do
  raise_if (any (contains (u.casefold key)) forbidden) bad_meta
  raise_if (not (is_bounded_value value)) bad_meta
  check_meta u rest

unfoldable pub check_notes : Unicode → List DimensionResult → Result GradingError (Unit {0})
check_notes u [] = ok tt
check_notes u (d ∷ ds) = do require_english u d.note; check_notes u ds

-- the checks of an amber or red moment
unfoldable pub check_stored_marked : Unicode → MomentResult → Result GradingError (Unit {0})
check_stored_marked u m = do
  raise_if (is_unquoted m.quote) no_quote
  require_english u m.try_instead
  require_english u m.why_it_matters

-- one round of the loop over `moments`
unfoldable pub check_stored_moment :
    Unicode → List ℕ → MomentResult → Result GradingError (Unit {0})
check_stored_moment u dimension_ids m = do
  raise_if
      (not (elem m.rubric_dimension_id dimension_ids)
        || ltb_ℤ m.at_ms (pos 0)
        || not (elem_text m.severity ("green" ∷ "amber" ∷ "red" ∷ [])))
      bad_moment
  if is_marked m.severity then check_stored_marked u m else ok tt

unfoldable pub check_stored_moments :
    Unicode → List ℕ → List MomentResult → Result GradingError (Unit {0})
unfolding check_stored_moment
check_stored_moments u dimension_ids [] = ok tt
check_stored_moments u dimension_ids (m ∷ ms) = do
  check_stored_moment u dimension_ids m
  check_stored_moments u dimension_ids ms

-- takeaway is None or not takeaway.strip()
unfoldable pub is_missing : Unicode → Option String → Bool
is_missing u none = true
is_missing u (some s) = is_blank u s

unfoldable pub validate_persistence_payload :
    Unicode
    → List DimensionResult
    → List MomentResult
    → Option String
    → List (String × MetaValue)
    → Result GradingError (Unit {0})
unfolding is_missing check_notes check_stored_moments check_meta
validate_persistence_payload u dimensions moments takeaway meta = do
  overall ← weighted_overall dimensions
  raise_if (is_missing u takeaway) no_takeaway
  require_english u takeaway
  raise_if (is_empty moments) no_moments
  check_notes u dimensions
  check_stored_moments u (map DimensionResult.rubric_dimension_id dimensions) moments
  check_meta u meta

pub record Scorecard : Type 0 where
  pub id : ℕ
  pub org : ℕ
  pub team : ℕ
  pub attempt : ℕ
  pub overall_score : ℕ
  pub takeaway : Option String
  pub meta : List (String × MetaValue)

pub record DimensionScore : Type 0 where
  pub scorecard : ℕ
  pub dimension : ℕ
  pub org : ℕ
  pub team : ℕ
  pub score : Decimal
  pub note : Option String

pub record Moment : Type 0 where
  pub id : ℕ
  pub org : ℕ
  pub team : ℕ
  pub scorecard : ℕ
  pub attempt : ℕ
  pub result : MomentResult

-- The tables that T-3 writes.
pub record ReviewDb : Type 0 where
  pub attempts : List Attempt
  pub scorecards : List Scorecard
  pub dimension_scores : List DimensionScore
  pub moments : List Moment

pub record Grading : Type 0 where
  pub attempt_id : ℕ
  pub org_id : ℕ
  pub team_id : ℕ
  pub dimensions : List DimensionResult
  pub moments : List MomentResult
  pub takeaway : Option String
  pub grading_meta : List (String × MetaValue)

-- status in ('completed','grading_pending')
abbrev pub is_gradable : Status → Bool
is_gradable completed = true
is_gradable grading_pending = true
is_gradable _ = false

-- `_MARK_GRADED`
unfoldable pub mark_graded : ℕ → List Attempt → List Attempt
mark_graded attempt [] = []
mark_graded attempt (a ∷ rest) =
    (if a.id == attempt && is_gradable a.status then record a { status = graded } else a)
    ∷ mark_graded attempt rest

-- `_INSERT_SCORECARD`
abbrev pub new_scorecard : ℕ → ℕ → Grading → Scorecard
new_scorecard id overall g = record {
  id = id;
  org = g.org_id;
  team = g.team_id;
  attempt = g.attempt_id;
  overall_score = overall;
  takeaway = g.takeaway;
  meta = g.grading_meta;
}

-- `_INSERT_DIMENSION`
abbrev pub dimension_row : ℕ → Grading → DimensionResult → DimensionScore
dimension_row scorecard g d = record {
  scorecard = scorecard;
  dimension = d.rubric_dimension_id;
  org = g.org_id;
  team = g.team_id;
  score = d.score;
  note = d.note;
}

-- `_INSERT_MOMENT`, with the fresh ids of the moments in order: `fresh k` is that of the k-th
unfoldable pub moment_rows : (ℕ → ℕ) → ℕ → ℕ → Grading → List MomentResult → List Moment
moment_rows fresh k scorecard g [] = []
moment_rows fresh k scorecard g (m ∷ ms) =
    record {
      id = fresh k;
      org = g.org_id;
      team = g.team_id;
      scorecard = scorecard;
      attempt = g.attempt_id;
      result = m;
    }
    ∷ moment_rows fresh (k + 1) scorecard g ms

-- on conflict (attempt_id): a row of the attempt exists
unfoldable pub is_graded_already : ℕ → ReviewDb → Bool
is_graded_already attempt db = any (λ s. s.attempt == attempt) db.scorecards

-- T-3. `scorecard_id` and `fresh` are the fresh ids.
unfoldable pub write_scorecard :
    Unicode → ℕ → (ℕ → ℕ) → Grading → ReviewDb → Result GradingError (ReviewDb × Option ℕ)
unfolding validate_persistence_payload mark_graded moment_rows is_graded_already
write_scorecard u scorecard_id fresh g db = do
  validate_persistence_payload u g.dimensions g.moments g.takeaway g.grading_meta
  overall ← weighted_overall g.dimensions
  if is_graded_already g.attempt_id db
      then ok (db, none)
      else ok (
        record db {
          attempts = mark_graded g.attempt_id db.attempts;
          scorecards = db.scorecards ++ new_scorecard scorecard_id overall g ∷ [];
          dimension_scores = db.dimension_scores ++ map (dimension_row scorecard_id g) g.dimensions;
          moments = db.moments ++ moment_rows fresh 0 scorecard_id g g.moments;
        },
        some scorecard_id,
      )
