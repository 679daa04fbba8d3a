-- ===== src/Life.antt =====
-- The life of an attempt over the whole program: the status moves that are allowed, and the
-- operations of src/bluelab/calls/admission.py, completion.py and interruption.py and of
-- src/bluelab/modules/review/grading.py and attempts.py on one set of tables, in any order.
pub mod Moves
pub mod Steps
pub mod Runs
mod Examples
use bluelab_backend_prod.Prelude.{ℕ, ◌≡◌, List, [], ◌∷◌, Result, ok, err}
use bluelab_backend_prod.Calls.Admission.{Session, AdmissionRequest, admit}
use bluelab_backend_prod.Calls.Completion.{Completion, complete}
use bluelab_backend_prod.Calls.Database.{
  Db, Attempt, Status, in_progress, completed, grading_pending, graded, interrupted,
}
use bluelab_backend_prod.Calls.Interruption.{Interruption, interrupt}
use bluelab_backend_prod.Calls.Text.{Unicode}
use bluelab_backend_prod.Review.Attempts.{GradingFault, mark_grading_exhausted}
use bluelab_backend_prod.Review.Commentary
use bluelab_backend_prod.Review.Scorecard.{ReviewDb, Grading, write_scorecard}

-- The moves of a status; a move to the same status is none.
pub data Move : Status → Status → Type 0 where
  completing : Move in_progress completed
  interrupting : Move in_progress interrupted
  exhausting : Move completed grading_pending
  grading_first : Move completed graded
  grading_late : Move grading_pending graded

-- What one operation may do to the table of attempts: rows stay, move their status, are deleted
-- while in progress, and new ones start in progress.
pub data Evolves : List Attempt → List Attempt → Type 0 where
  unchanged : Evolves [] []
  started : (a : Attempt) → a.status ≡ in_progress → Evolves [] (a ∷ [])
  kept :
      {xs ys : List Attempt} (a b : Attempt)
      → b.id ≡ a.id
      → b.status ≡ a.status
      → Evolves xs ys
      → Evolves (a ∷ xs) (b ∷ ys)
  moved :
      {xs ys : List Attempt} (a b : Attempt)
      → b.id ≡ a.id
      → Move a.status b.status
      → Evolves xs ys
      → Evolves (a ∷ xs) (b ∷ ys)
  deleted :
      {xs ys : List Attempt} (a : Attempt)
      → a.status ≡ in_progress
      → Evolves xs ys
      → Evolves (a ∷ xs) ys

-- The tables of the calls, of the review (its attempts are those of the calls), and the faults.
pub record World : Type 0 where
  pub db : Db
  pub review : ReviewDb
  pub faults : List GradingFault

pub data Action : Type 0 where
  admits : Session → ℕ → ℕ → AdmissionRequest → Action
  completes : ℕ → ℕ → Completion → Action
  interrupts : ℕ → ℕ → Interruption → Action
  grades : ℕ → (ℕ → ℕ) → Grading → Action
  exhausts : ℕ → ℕ → ℕ → Action

module _ (u : Unicode) (v : Commentary.Unicode) where
  -- One operation; an error rolls it back.
  unfoldable pub perform : Action → World → World
  perform (admits session consent id q) w = elim (admit session consent id q w.db) [
    | ok (db, result) ↦ record w { db = db }
    | err e ↦ w
  ]
  perform (completes now email c) w = record w { db = (complete u now email c w.db).0 }
  perform (interrupts now email i) w = record w { db = (interrupt now email i w.db).0 }
  perform (grades id fresh g) w =
      elim (write_scorecard v id fresh g (record w.review { attempts = w.db.attempts })) [
        | ok (review, won) ↦ record w {
          db = record w.db { attempts = review.attempts };
          review = review;
        }
        | err e ↦ w
      ]
  perform (exhausts id attempt retries) w =
      let (rows, faults) = mark_grading_exhausted id attempt retries (w.db.attempts, w.faults) in
      record w { db = record w.db { attempts = rows }; faults = faults }

  unfoldable pub perform_all : List Action → World → World
  unfolding perform
  perform_all [] w = w
  perform_all (a ∷ rest) w = perform_all rest (perform a w)
