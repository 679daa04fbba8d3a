-- ===== src/Queue/Worker.antt =====
-- src/bluelab/platform/queue/context.py and runtime.py: one execution of a job, and what becomes
-- of the job, with procrastinate_retry_job_v2 and procrastinate_finish_job_v1 of
-- src/migrations/versions/0002_queue_schema.py. The handler, the exhaustion action and the service
-- gate of an organisation are parameters; a raise rolls its transaction back.
use bluelab_backend_prod.Prelude.{
  ℕ, ◌+◌, ◌^◌, min, Bool, true, false, ◌&&◌, ◌||◌, not, Option, none, some, [], leb, if◌then◌else◌,
  Result, ok, err, ◌>>=◌, ◌>>◌, raise_if,
}
use bluelab_backend_prod.Queue.{Body, EnvelopeError, JobEnvelope, incompatible_payload, read}
use bluelab_backend_prod.Queue.Catalog.{
  Lane, Payload, PayloadError, WorkDb, is_ordinary, max_attempts, subject_is_erased,
  validate_payload,
}

-- What is raised inside a job.
pub data JobError : Type 0 where
  work_suspended incompatible non_retryable another_error : JobError

-- What an execution ends with: it returns, or raises to the queue.
pub data Ending : Type 0 where
  returned retryable_failure terminal_failure exhaustion_failure deferred : Ending

pub data JobStatus : Type 0 where
  todo : ℕ → ℕ → JobStatus
  succeeded failed : JobStatus

abbrev pub envelope_error : EnvelopeError → JobError
envelope_error incompatible_payload = incompatible
envelope_error _ = another_error

abbrev pub in_job {ℓ κ} :
    {E : Type ℓ} {A : Type κ} → (E → JobError) → Result E A → Result JobError A
in_job f (ok a) = ok a
in_job f (err e) = err (f e)

-- body.get("args", {})
abbrev pub args_of_job : JobEnvelope Payload → Payload
args_of_job env = elim env.args [ none ↦ [] | some p ↦ p ]

module _ {W : Type 0} (service : WorkDb W → ℕ → Bool) where
  -- The gate of `job_transaction`, before and after.
  abbrev pub gate : Lane → ℕ → WorkDb W → Result JobError (Unit {0})
  gate lane org db = raise_if (is_ordinary lane && not (service db org)) work_suspended

  -- `job_transaction` around a body
  unfoldable pub job_transaction :
      Lane
      → Body Payload
      → (JobEnvelope Payload → WorkDb W → Result JobError (WorkDb W))
      → WorkDb W
      → Result JobError (WorkDb W)
  unfolding read
  job_transaction lane body work db = do
    env ← in_job envelope_error (read Payload body)
    gate lane env.org_id db
    db' ← work env db
    gate lane env.org_id db'
    ok db'

  pub record JobRegistration : Type 0 where
    pub lane : Lane
    pub handler : JobEnvelope Payload → WorkDb W → Result JobError (WorkDb W)
    pub on_exhausted : JobEnvelope Payload → WorkDb W → Result JobError (WorkDb W)

  abbrev pub payload_error : PayloadError → JobError
  payload_error e = another_error

  -- the work of `__call__`
  unfoldable pub attempt_job :
      JobRegistration → JobEnvelope Payload → WorkDb W → Result JobError (WorkDb W)
  unfolding validate_payload subject_is_erased
  attempt_job r env db = do
    in_job payload_error (validate_payload r.lane (args_of_job env))
    if subject_is_erased db r.lane (args_of_job env) then ok db else r.handler env db

  -- the work of `_run_exhaustion`
  unfoldable pub exhaust_job :
      JobRegistration → JobEnvelope Payload → WorkDb W → Result JobError (WorkDb W)
  unfolding validate_payload
  exhaust_job r env db = do
    in_job payload_error (validate_payload r.lane (args_of_job env))
    r.on_exhausted env db

  abbrev pub is_permanent : JobError → Bool
  is_permanent non_retryable = true
  is_permanent _ = false

  -- what `_run_exhaustion` comes to
  abbrev pub after_exhaustion : WorkDb W → Result JobError (WorkDb W) → WorkDb W × Ending
  after_exhaustion db (ok db') = (db', terminal_failure)
  after_exhaustion db (err work_suspended) = (db, returned)
  after_exhaustion db (err _) = (db, exhaustion_failure)

  -- the `except` clauses of `__call__`
  unfoldable pub handle_failure :
      JobRegistration → ℕ → Body Payload → WorkDb W → JobError → WorkDb W × Ending
  unfolding job_transaction exhaust_job
  handle_failure r attempts body db work_suspended = (db, returned)
  handle_failure r attempts body db incompatible = (db, deferred)
  handle_failure r attempts body db e =
      if is_permanent e || leb (max_attempts r.lane) attempts
      then after_exhaustion db (job_transaction r.lane body (exhaust_job r) db)
      else (db, retryable_failure)

  unfoldable pub after_attempt :
      JobRegistration → ℕ → Body Payload → WorkDb W → Result JobError (WorkDb W) → WorkDb W × Ending
  unfolding handle_failure
  after_attempt r attempts body db (ok db') = (db', returned)
  after_attempt r attempts body db (err e) = handle_failure r attempts body db e

  -- `JobExecutor.__call__`
  unfoldable pub execute : JobRegistration → ℕ → Body Payload → WorkDb W → WorkDb W × Ending
  unfolding job_transaction attempt_job after_attempt
  execute r attempts body db =
      after_attempt r attempts body db (job_transaction r.lane body (attempt_job r) db)

-- `get_retry_decision`, the seconds
unfoldable pub retry_decision : ℕ → ℕ → Lane → ℕ → Ending → Option ℕ
retry_decision compat longest lane attempts returned = none
retry_decision compat longest lane attempts retryable_failure =
    if leb (max_attempts lane) attempts then none else some (min (2 ^ (attempts + 1)) longest)
retry_decision compat longest lane attempts terminal_failure = none
retry_decision compat longest lane attempts exhaustion_failure = some compat
retry_decision compat longest lane attempts deferred = some compat

-- The job row afterwards: a retry adds one to the attempts, whatever it is for, but a job whose
-- abort was requested is failed instead.
unfoldable pub job_after : Bool → ℕ → ℕ → Lane → ℕ → Ending → JobStatus
unfolding retry_decision
job_after aborting compat longest lane attempts returned = succeeded
job_after aborting compat longest lane attempts ending =
    elim (retry_decision compat longest lane attempts ending) [
      | none ↦ failed
      | some delay ↦ if aborting then failed else todo (attempts + 1) delay
    ]
