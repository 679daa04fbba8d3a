-- ===== src/Life/Steps.antt =====
-- Every operation on attempts of src/bluelab makes allowed moves only.
use bluelab_backend_prod.Prelude.{
  ℕ, ◌≡◌, refl, ap, Bool, List, [], ◌∷◌, ◌++◌, if-both, Bool-cases, Result-cases, inl, inr,
}
use bluelab_backend_prod.Calls.Admission.{AdmissionRequest, admit, new_attempt}
use bluelab_backend_prod.Calls.Admission.Clearance.{admit_writes}
use bluelab_backend_prod.Calls.Completion.{complete}
use bluelab_backend_prod.Calls.Completion.Once.{
  complete_atomic, complete_attempts-as_ended, complete-refused,
}
use bluelab_backend_prod.Calls.Database.{Db, Attempt, in_progress}
use bluelab_backend_prod.Calls.Interruption.{Interruption, end_attempt}
use bluelab_backend_prod.Calls.Interruption.Dead.{interrupt-attempts}
use bluelab_backend_prod.Calls.Text.{Unicode}
use bluelab_backend_prod.Life.{
  Evolves, World, Action, admits, completes, interrupts, grades, exhausts, perform,
}
use bluelab_backend_prod.Life.Moves.{
  Evolves-refl, Evolves-start, Evolves-complete, Evolves-void, Evolves-delete, Evolves-grade,
  Evolves-exhaust,
}
use bluelab_backend_prod.Review.Attempts.{mark_grading_exhausted}
use bluelab_backend_prod.Review.Commentary
use bluelab_backend_prod.Review.Scorecard.{ReviewDb, write_scorecard}
use bluelab_backend_prod.Review.Scorecard.Once.{write-attempts}

Evolves-end_attempt :
    (now : ℕ) (i : Interruption) (rows : List Attempt) → Evolves rows (end_attempt now i rows)
unfolding end_attempt
Evolves-end_attempt now i rows =
    if-both (Evolves rows) _ (Evolves-delete i.attempt_id rows) (Evolves-void now i.attempt_id rows)

new_attempt-status :
    (q : AdmissionRequest) (id : ℕ) (restart : Bool)
    → (new_attempt q id restart).status ≡ in_progress
unfolding new_attempt
new_attempt-status q id restart = refl

module _ (u : Unicode) (v : Commentary.Unicode) where
  -- Whatever one operation does to the attempts, whether it succeeds, is refused or fails, is
  -- allowed: attempts start in progress; one in progress is completed, interrupted or deleted; a
  -- completed one waits for its grading or is graded, and a waiting one is graded; every other
  -- attempt keeps its status, and those that stay keep their ids and their order.
  pub perform-Evolves :
      (action : Action) (w : World) → Evolves w.db.attempts (perform u v action w).db.attempts
  unfolding perform mark_grading_exhausted
  perform-Evolves (admits session consent id q) w =
      elim (Result-cases (admit session consent id q w.db)) [
        | inr (e, failed) ↦ rw (perform, failed) (Evolves-refl w.db.attempts)
        | inl ((db, result), done) ↦
            let written : db.attempts ≡ w.db.attempts ++ new_attempt q id result.restart ∷ [] =
              ap Db.attempts
                (admit_writes session consent id q w.db {db' = db} {r = result} done).1 in
            rw (perform, done, written)
              (Evolves-start (new_attempt q id result.restart) w.db.attempts
                (new_attempt-status q id result.restart))
      ]
  perform-Evolves (completes now email c) w = elim (Bool-cases (complete u now email c w.db).1) [
    | inr lost ↦ rw (complete-refused u now email c w.db lost) (Evolves-refl w.db.attempts)
    | inl won ↦
        rw
          ((complete_atomic u now email c w.db won).1, ← complete_attempts-as_ended c w.db.attempts)
          (Evolves-complete c.attempt_id c.ended_at c.duration_seconds c.recording_object_key
            w.db.attempts)
  ]
  perform-Evolves (interrupts now email i) w = rw (interrupt-attempts now email i w.db) (
      if-both (Evolves w.db.attempts) _ (Evolves-end_attempt now i w.db.attempts)
        (Evolves-refl w.db.attempts))
  perform-Evolves (grades id fresh g) w =
      let before : ReviewDb = record w.review { attempts = w.db.attempts } in
      elim (Result-cases (write_scorecard v id fresh g before)) [
        | inr (e, failed) ↦ rw (perform, failed) (Evolves-refl w.db.attempts)
        | inl ((review, won), done) ↦ elim (write-attempts v id fresh g before done) [
          | inl same ↦ rw (perform, done, same) (Evolves-refl w.db.attempts)
          | inr marked ↦ rw (perform, done, marked) (Evolves-grade g.attempt_id w.db.attempts)
        ]
      ]
  perform-Evolves (exhausts id attempt retries) w = Evolves-exhaust attempt w.db.attempts
