-- ===== src/Assessment.antt =====
-- src/bluelab/modules/assessment/service.py: what a candidate sees of the assessment, the
-- checks before a brief. The row policies of a candidate's session show the stages of the own
-- position only.
pub mod Brief
pub mod Preflight
pub mod Order
pub mod Stages
pub mod Gate
mod Examples
use text.Mathlib.Text.{◌==◌ as text_eq}
use bluelab_backend_prod.Prelude.{
  ℕ, zero, suc, ◌+◌, String, Bool, true, false, ◌&&◌, not, Option, none, some, List, [], ◌∷◌, ◌++◌,
  map, ◌==◌, ltb, leb, any, all, find, keep, count_if, length, sum, is_some, if◌then◌else◌, Result,
  ok, err, ◌>>=◌, ◌>>◌, raise_if, or_raise,
}
use bluelab_backend_prod.Calls.Database.{
  Db, Attempt, Stage, Candidate, Consent, is_id, same_kind, is_done, is_interrupted, plan,
}

pub data StageStatus : Type 0 where
  stage_completed closed_incomplete next upcoming : StageStatus

abbrev pub is_next : StageStatus → Bool
is_next next = true
is_next _ = false

abbrev pub is_incomplete : StageStatus → Bool
is_incomplete closed_incomplete = true
is_incomplete _ = false

pub data AssessmentState : Type 0 where
  assessment_completed preflight_required started ready : AssessmentState

pub record StageView : Type 0 where
  pub stage : Stage
  pub status : StageStatus
  pub restart_available : Bool

-- The tables of a session with what the modelled calls do not read: the candidates whose
-- `preflight` says passed, and the candidates that accepted the terms.
pub record Portal : Type 0 where
  pub db : Db
  pub passed : List ℕ
  pub accepted : List ℕ

-- count(a.id) filter (where a.status in ('completed','grading_pending','graded'))
unfoldable pub completed_count : Db → ℕ → ℕ → ℕ
completed_count db cand stage =
    count_if (λ a. is_id cand a.candidate && is_id stage a.stage && is_done a.status) db.attempts

-- count(a.id) filter (where a.status = 'interrupted')
unfoldable pub interrupted_count : Db → ℕ → ℕ → ℕ
interrupted_count db cand stage =
    count_if (λ a. is_id cand a.candidate && is_id stage a.stage && is_interrupted a.status)
      db.attempts

-- order by s.ord
unfoldable pub insert_by_ord : Stage → List Stage → List Stage
insert_by_ord st [] = st ∷ []
insert_by_ord st (x ∷ xs) =
    let rest = insert_by_ord st xs in if leb st.ord x.ord then st ∷ x ∷ xs else x ∷ rest

unfoldable pub by_ord : List Stage → List Stage
unfolding insert_by_ord
by_ord [] = []
by_ord (st ∷ sts) = insert_by_ord st (by_ord sts)

unfoldable pub status_of : Db → ℕ → Bool → Stage → StageStatus
unfolding completed_count interrupted_count
status_of db cand next_found st =
    if ltb 0 (completed_count db cand st.id)
    then stage_completed
    else if leb 2 (interrupted_count db cand st.id)
    then closed_incomplete
    else if not next_found
    then next
    else upcoming

-- the loop over the rows, with `next_found`
unfoldable pub stage_data : Db → ℕ → Bool → List Stage → List StageView
unfolding status_of
stage_data db cand next_found [] = []
stage_data db cand next_found (st ∷ sts) =
    let status = status_of db cand next_found st in
    record { stage = st; status = status; restart_available = interrupted_count db cand st.id == 1 }
    ∷ stage_data db cand (if is_next status then true else next_found) sts

unfoldable pub stage_views : Db → ℕ → List StageView
unfolding by_ord stage_data
stage_views db cand = stage_data db cand false (by_ord (plan db (some cand)))

-- The state of the view; a candidate's session reads the candidate's own row.
unfoldable pub state_of : Portal → Candidate → AssessmentState
state_of p c =
    if is_some c.completed_at
    then assessment_completed
    else if not (any (λ i. i == c.id) p.passed)
    then preflight_required
    else if any (λ a. is_id c.id a.candidate) p.db.attempts
    then started
    else ready

pub record View : Type 0 where
  pub state : AssessmentState
  pub stages : List StageView
  pub completed : ℕ
  pub total : ℕ

pub data AssessmentProblem : Type 0 where
  not_found assessment_over preflight_missing stage_used drill_not_startable : AssessmentProblem
  not_next : Option ℕ → AssessmentProblem
  invalid : List String → AssessmentProblem
  database_refused : AssessmentProblem

-- `assessment_view`
unfoldable pub assessment_view : Portal → ℕ → Result AssessmentProblem View
unfolding state_of stage_views
assessment_view p cand = do
  c ← or_raise (find (λ c. c.id == cand) p.db.candidates) not_found
  let stages = stage_views p.db cand
  ok (record {
    state = state_of p c;
    stages = stages;
    completed = count_if (λ v. ltb 0 (completed_count p.db cand v.stage.id)) stages;
    total = length stages;
  })

-- next((x['ord'] for x in view['stages'] if x['status'] == 'next'), None)
unfoldable pub next_ord : List StageView → Option ℕ
next_ord views = elim (find (λ v. is_next v.status) views) [
  | none ↦ none
  | some v ↦ some v.stage.ord
]

abbrev pub is_over : AssessmentState → Bool
is_over assessment_completed = true
is_over _ = false

abbrev pub is_blocked : AssessmentState → Bool
is_blocked preflight_required = true
is_blocked _ = false

-- the checks of `stage_brief` before the drill is read
unfoldable pub startable_stage : Portal → ℕ → ℕ → Result AssessmentProblem StageView
unfolding assessment_view next_ord
startable_stage p cand stage = do
  view ← assessment_view p cand
  raise_if (is_over view.state) assessment_over
  raise_if (is_blocked view.state) preflight_missing
  v ← or_raise (find (λ v. v.stage.id == stage) view.stages) not_found
  raise_if (is_incomplete v.status) stage_used
  raise_if (not (is_next v.status)) (not_next (next_ord view.stages))
  ok v
