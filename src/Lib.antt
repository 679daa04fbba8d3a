-- ===== src/Lib.antt =====
-- Verification of the core of the bluelab backend.
--
-- The program is a service for practice and assessment calls. A participant asks for a call;
-- the backend takes the participant's lease, runs the admission transaction, and later one of
-- several reporters (the call runtime, the sweep, the webhook) tells it that the call completed
-- or was interrupted. A completion writes the transcript, flips the attempt and enqueues its
-- grading; an interruption voids or deletes the attempt and gives the allowance back. Calls of
-- external services pass a circuit breaker with bounded retries.
--
-- The files:
--   Prelude         shared types, tests, lists, results, signed integers, equality
--   Valkey          what the code relies on of the coordination store, and a store that meets it
--   Resilience      src/bluelab/platform/resilience.py: post_init is __post_init__, CircuitBreaker
--                   with before_call/succeeded/failed, and call_dependency, whose retry loop is
--                   attempt_loop and whose except clauses are settle. The outcomes of the
--                   operation, the clock and other tasks are a World.
--   Calls/Lease     src/bluelab/calls/lease.py: acquire, current, renew, mark_established,
--                   release. Commands are steps at their own time; `meanwhile` is what other
--                   clients do between two commands.
--   Calls/Database  the tables of the transactions, as lists of rows
--   Calls/Admission src/bluelab/calls/admission.py, with the function of
--                   sql/functions/app_consume_assignment_allowance.sql: admit
--   Calls/Registry  src/bluelab/calls/registry.py: Store is CallRegistry, Capacity is CapacitySlots
--   Calls/Egress    src/bluelab/calls/egress.py: EgressRegistry and reconcile_recording
--   Calls/Text      src/bluelab/platform/security/text.py: safe_plain_text
--   Calls/Completion and Calls/Interruption
--                   src/bluelab/calls/completion.py and interruption.py: complete,
--                   advance_candidate_if_closed, interrupt
--   Review/Commentary, Review/Evaluation and Review/Grading
--                   src/bluelab/modules/review/grading.py: validate_evaluation, with the response
--                   models of src/bluelab/adapters/evaluator_llm.py
--   Review/Overall  weighted_overall, with quantize_score of src/bluelab/platform/db/types.py
--   Review/Scorecard
--                   validate_persistence_payload and write_scorecard (T-3)
--   Calls/Plane and Calls/Sweep
--                   src/bluelab/calls/sweep.py: run_once, over the registry, the leases, the slots and
--                   the database
--   Assessment      src/bluelab/modules/assessment/service.py: assessment_view, record_preflight,
--                   stage_brief, stage_reference, with app_record_candidate_preflight of
--                   sql/functions/phase6_candidate_identity.sql
--   Clock           src/bluelab/platform/clock.py: month windows, due dates, resolve_local_time with
--                   its search, service terms and retention
--   Review/Attempts src/bluelab/modules/review/attempts.py: grading_work_item, with text_fragments,
--                   and mark_grading_exhausted
--   Drills          src/bluelab/modules/drills/freeze.py: publish_drill
--   Training        src/bluelab/modules/training/assignment.py: put_assignment, get_assignment
--   Subjects        src/bluelab/lifecycle/subject_states.py: prepare, apply, reject
--   Offboarding     src/bluelab/lifecycle: service.py in Commands (what all orders share), Terms
--                   (expiry), Renewal (terms) and Episode (start, cancellation, extension), Revision
--                   and Access (the views, with sql/functions/org_service_access.sql),
--                   restrictions.py in Restrictions, the claim of purge.py in Claim; Steps has them
--                   all on one set of tables
--   Queue           src/bluelab/platform/queue: compat.py (envelope, read), Catalog for catalog.py and
--                   erasure_fence.py, Worker for context.py and runtime.py with the retry of
--                   migrations/versions/0002_queue_schema.py
--   Life            the status moves of an attempt, and all the operations above that write
--                   attempts on one set of tables
--   Throttle        src/bluelab/platform/security/throttle.py: hit, record_failure
--   Pagination      src/bluelab/platform/http/pagination.py: Cursor and PageRequest
--
-- A transaction is one step: the code takes a row lock or an advisory lock before it reads, and
-- an error rolls everything back. UUIDs, versions and times are natural numbers. The retry loop
-- recurs on the attempts that are left. The loop of `release` is unbounded in the code: it
-- recurs on the list of its rounds, and one round without a watch error is enough. The search of
-- resolve_local_time has the width of its range as fuel, and each round makes that smaller.
--
-- Not modelled: HTTP routing, provider clients, configuration, telemetry, and the modules that
-- only project tables.
mod Prelude
pub mod Valkey
pub mod Resilience
pub mod Calls
pub mod Review
pub mod Throttle
pub mod Pagination
pub mod Assessment
pub mod Clock
pub mod Life
pub mod Drills
pub mod Training
pub mod Subjects
pub mod Queue
pub mod Offboarding
