-- ===== src/Queue/Delivery.antt =====
-- src/bluelab/platform/queue/runtime.py: what holds of a job over its executions.
use bluelab_backend_prod.Prelude.{
  ℕ, ◌+◌, ◌≤◌, ◌≡◌, ◌≢◌, refl, Bool, true, false, ◌&&◌, ◌==◌, leb, Result, ok, err, arith,
}
use bluelab_backend_prod.Queue.{Body, incompatible_payload, read}
use bluelab_backend_prod.Queue.Catalog.{
  ErasureSubject, account, candidate, Payload, WorkDb, max_attempts,
}
use bluelab_backend_prod.Queue.Worker.{
  Ending, JobError, JobRegistration, after_attempt, after_exhaustion, attempt_job, deferred,
  execute, exhaust_job, exhaustion_failure, handle_failure, incompatible, another_error,
  non_retryable, job_after, job_transaction, retry_decision, retryable_failure, returned,
  terminal_failure, todo, work_suspended,
}

-- The same account, or the same candidate.
abbrev pub is_same_person : ErasureSubject × ℕ → ErasureSubject × ℕ → Bool
is_same_person p r = (p.1 == r.1) && elim p.0 [
  | account ↦ elim r.0 [ account ↦ true | candidate ↦ false ]
  | candidate ↦ elim r.0 [ account ↦ false | candidate ↦ true ]
]

module _ {W : Type 0} (service : WorkDb W → ℕ → Bool) (r : JobRegistration service) where
  after_exhaustion-final :
      (db : WorkDb W) (m : Result JobError (WorkDb W))
      → (after_exhaustion service db m).1 ≢ retryable_failure
  after_exhaustion-final db (ok x) h = cc
  after_exhaustion-final db (err work_suspended) h = cc
  after_exhaustion-final db (err incompatible) h = cc
  after_exhaustion-final db (err non_retryable) h = cc
  after_exhaustion-final db (err another_error) h = cc

  -- A failure at the last attempt is not handed back.
  after_attempt-last :
      (attempts : ℕ) (body : Body Payload) (db : WorkDb W) (m : Result JobError (WorkDb W))
      → max_attempts r.lane ≤ attempts
      → (after_attempt service r attempts body db m).1 ≢ retryable_failure
  unfolding after_attempt handle_failure
  after_attempt-last attempts body db (ok x) late h = cc
  after_attempt-last attempts body db (err work_suspended) late h = cc
  after_attempt-last attempts body db (err incompatible) late h = cc
  after_attempt-last attempts body db (err non_retryable) late h =
      after_exhaustion-final db (job_transaction service r.lane body (exhaust_job service r) db) h
  after_attempt-last attempts body db (err another_error) late h =
      let last : leb (max_attempts r.lane) attempts ≡ true = ground arith in
      after_exhaustion-final db (job_transaction service r.lane body (exhaust_job service r) db)
        (rw last at h)

  execute-newer :
      (attempts : ℕ) (body : Body Payload) (db : WorkDb W)
      → read Payload body ≡ err incompatible_payload
      → execute service r attempts body db ≡ (db, deferred)
  unfolding execute job_transaction after_attempt handle_failure
  execute-newer attempts body db newer = ground arith

  -- A deferral spends the retry budget: a worker that meets a newer envelope hands the job back with
  -- one attempt more, if no abort was requested, and no execution of a job that is so brought to its
  -- lane's last attempt, its first one included, ends as a failure to be retried by its lane's
  -- budget.
  pub deferral_spends_budget :
      (compat longest attempts : ℕ) (newer body : Body Payload) (db db' : WorkDb W)
      → read Payload newer ≡ err incompatible_payload
      → max_attempts r.lane ≤ attempts + 1
      → (job_after false compat longest r.lane attempts (execute service r attempts newer db).1
          ≡ todo (attempts + 1) compat)
        × ((execute service r (attempts + 1) body db').1 ≢ retryable_failure)
  unfolding execute
  deferral_spends_budget compat longest attempts newer body db db' unread last =
      let met = execute-newer attempts newer db unread in
      (
        rw met (unfold job_after in refl),
        after_attempt-last (attempts + 1) body db'
            (job_transaction service r.lane body (attempt_job service r) db') last,
      )

  -- A retry is counted, and waits for at most the longest delay: the next execution has one attempt
  -- more.
  pub retry_bounded :
      (aborting : Bool) (compat longest attempts next delay : ℕ) (ending : Ending)
      → compat ≤ longest
      → job_after aborting compat longest r.lane attempts ending ≡ todo next delay
      → (next ≡ attempts + 1) × (delay ≤ longest)
  unfolding job_after retry_decision
  retry_bounded aborting compat longest attempts next delay returned h e = absurd (cc)
  retry_bounded aborting compat longest attempts next delay retryable_failure h e = ground arith
  retry_bounded aborting compat longest attempts next delay terminal_failure h e = absurd (cc)
  retry_bounded aborting compat longest attempts next delay exhaustion_failure h e = ground arith
  retry_bounded aborting compat longest attempts next delay deferred h e = ground arith
