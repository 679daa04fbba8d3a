-- ===== src/Calls/Admission.antt =====
-- src/bluelab/calls/admission.py: T-1, the gate that every call passes, with
-- sql/functions/app_consume_assignment_allowance.sql. A raise rolls the transaction back, so an
-- error leaves the database as it was. `select … for update` and the advisory lock make the
-- transaction one step for its subject.
pub mod Clearance
pub mod Allowance
pub mod Stages
use bluelab_backend_prod.Prelude.{
  ℕ, suc, ◌+◌, Bool, true, false, ◌&&◌, ◌||◌, not, Option, none, some, List, [], ◌∷◌, ◌++◌, map,
  ◌==◌, ltb, leb, any, keep, find, same_id, is_none, is_some, if◌then◌else◌, Result, ok, err, ◌>>=◌,
  ◌>>◌, raise_if,
}
use bluelab_backend_prod.Calls.Database.{
  Db, Attempt, Assignment, Recipient, Stage, SubjectKind, account_subject, candidate_subject,
  in_progress, no_recording, eq_param, is_id, is_fenced, stage_done, stage_interrupted, position_of,
  plan,
}
use bluelab_backend_prod.Calls.Lease.{ParticipantKind, rep, candidate, author}

pub record AdmissionRequest : Type 0 where
  pub kind : ParticipantKind
  pub org_id : ℕ
  pub team_id : ℕ
  pub drill_id : ℕ
  pub account_id : Option ℕ
  pub candidate_id : Option ℕ
  pub assessment_stage_id : Option ℕ
  pub self_authored : Bool

pub record AdmissionResult : Type 0 where
  pub attempt_id : ℕ
  pub restart : Bool

-- The transaction's settings (`current_setting('app.…')`), and the answer of
-- `org_service_access_allowed`.
pub record Session : Type 0 where
  pub is_account : Bool
  pub is_rep : Bool
  pub account : Option ℕ
  pub org : Option ℕ
  pub team : Option ℕ
  pub access_allowed : Bool

pub data Problem : Type 0 where
  organization_suspended token_invalid consent_required stage_consumed : Problem
  allowance_exhausted : Option (ℕ × ℕ) → Problem
  stage_not_next : Option ℕ → Problem

unfoldable pub require_call_service_access : Session → ℕ → Result Problem (Unit {0})
require_call_service_access session org =
    raise_if (not (same_id session.org (some org)) || not session.access_allowed)
      organization_suspended

-- request.candidate_id or request.account_id
abbrev pub subject_of : AdmissionRequest → Option (SubjectKind × ℕ)
subject_of r = elim r.candidate_id [
  | some c ↦ some (candidate_subject, c)
  | none ↦ elim r.account_id [ some a ↦ some (account_subject, a) | none ↦ none ]
]

unfoldable pub subject_fenced : Db → AdmissionRequest → Bool
subject_fenced db r = elim (subject_of r) [
  | none ↦ false
  | some (kind, subject) ↦ is_fenced db r.org_id kind subject
]

unfoldable pub has_current_consent : Db → Option ℕ → Option ℕ → ℕ → Bool
has_current_consent db none none version = false
has_current_consent db (some a) (some c) version = false
has_current_consent db (some a) none version =
    any (λ k. is_id a k.account && k.notice_version == version) db.consents
has_current_consent db none (some c) version =
    any (λ k. same_id k.account none && same_id k.candidate (some c) && k.notice_version == version)
      db.consents

-- from assignment a where a.id = ar.assignment_id
unfoldable pub assignment_of : List Assignment → Recipient → Option Assignment
assignment_of assignments r = find (λ a. a.id == r.assignment) assignments

-- a.drill_id = :drill and ar.rep_account_id = :rep
unfoldable pub is_recipient : List Assignment → ℕ → Option ℕ → Recipient → Bool
is_recipient assignments drill who r = elim (assignment_of assignments r) [
  | none ↦ false
  | some a ↦ a.drill == drill && eq_param who r.rep
]

-- … and ar.attempts_used < a.attempts_allowed
unfoldable pub has_room : List Assignment → ℕ → Option ℕ → Recipient → Bool
unfolding is_recipient
has_room assignments drill who r = elim (assignment_of assignments r) [
  | none ↦ false
  | some a ↦ (a.drill == drill && eq_param who r.rep) && ltb r.attempts_used a.attempts_allowed
]

-- … and a.org_id = v_org and a.team_id = v_team and ar.org_id = v_org and ar.team_id = v_team
unfoldable pub in_scope : List Assignment → Session → Recipient → Bool
in_scope assignments session r = elim (assignment_of assignments r) [
  | none ↦ false
  | some a ↦
      eq_param session.org a.org
      && eq_param session.team a.team
      && eq_param session.org r.org
      && eq_param session.team r.team
]

-- set attempts_used = ar.attempts_used + 1 where …
unfoldable pub consume : (Recipient → Bool) → List Recipient → List Recipient
consume test [] = []
consume test (r ∷ rs) =
    (if test r then record r { attempts_used = r.attempts_used + 1 } else r) ∷ consume test rs

-- The rows that the conditional update of this session touches.
unfoldable pub consumable : Session → List Assignment → AdmissionRequest → Recipient → Bool
consumable session assignments q r =
    if session.is_account
    then (session.is_rep && same_id session.account q.account_id && is_some session.account)
      && in_scope assignments session r
      && has_room assignments q.drill_id q.account_id r
    else has_room assignments q.drill_id q.account_id r

-- `_ALLOWANCE_STATE`, for the problem's `meta`
unfoldable pub allowance_state : Db → AdmissionRequest → Option (ℕ × ℕ)
allowance_state db q =
    elim (find (is_recipient db.assignments q.drill_id q.account_id) db.recipients) [
      | none ↦ none
      | some r ↦ elim (assignment_of db.assignments r) [
        | none ↦ none
        | some a ↦ some (r.attempts_used, a.attempts_allowed)
      ]
    ]

abbrev pub is_metered : AdmissionRequest → Bool
is_metered q = elim q.kind [ rep ↦ not q.self_authored | _ ↦ false ]

unfoldable pub consume_allowance : Session → AdmissionRequest → Db → Result Problem Db
unfolding consume consumable allowance_state
consume_allowance session q db =
    if is_metered q
    then (if any (consumable session db.assignments q) db.recipients
        then ok
            (record db { recipients = consume (consumable session db.assignments q) db.recipients })
        else err (allowance_exhausted (allowance_state db q)))
    else ok db

-- not done and interrupted < 2
unfoldable pub is_open : Db → ℕ → Stage → Bool
is_open db cand st = not (stage_done db cand st.id) && ltb (stage_interrupted db cand st.id) 2

-- order by ord limit 1
unfoldable pub first_by_ord : List Stage → Option Stage
first_by_ord [] = none
first_by_ord (st ∷ sts) =
    let rest = first_by_ord sts in
    elim rest [ none ↦ some st | some best ↦ if ltb best.ord st.ord then some best else some st ]

unfoldable pub next_stage : Db → ℕ → Option Stage
unfolding first_by_ord is_open plan
next_stage db cand = first_by_ord (keep (is_open db cand) (plan db (some cand)))

-- select … from plan where id = :stage
unfoldable pub requested : Db → ℕ → Option ℕ → Option Stage
unfolding plan
requested db cand stage = find (λ st. eq_param stage st.id) (plan db (some cand))

unfoldable pub admit_candidate_stage : Db → ℕ → Option ℕ → Result Problem Bool
admit_candidate_stage db cand stage = do
  let asked = requested db cand stage
  let consumed : Bool = elim asked [ none ↦ false | some st ↦ stage_done db cand st.id ]
  let interrupted : ℕ = elim asked [ none ↦ 0 | some st ↦ stage_interrupted db cand st.id ]
  raise_if consumed stage_consumed
  raise_if (leb 2 interrupted) stage_consumed
  let next = next_stage db cand
  let next_id : Option ℕ = elim next [ none ↦ none | some st ↦ some st.id ]
  let next_ord : Option ℕ = elim next [ none ↦ none | some st ↦ some st.ord ]
  raise_if (not (same_id next_id stage)) (stage_not_next next_ord)
  ok (interrupted == 1)

-- The stage check of a candidate's request. A request of that kind with no candidate finds no
-- plan, and passes only with no stage either.
unfoldable pub check_stage : Db → AdmissionRequest → Result Problem Bool
unfolding admit_candidate_stage
check_stage db q = elim q.kind [
  | candidate ↦ elim q.candidate_id [
    | some c ↦ admit_candidate_stage db c q.assessment_stage_id
    | none ↦ if same_id none q.assessment_stage_id then ok false else err (stage_not_next none)
  ]
  | _ ↦ ok false
]

-- `_INSERT_ATTEMPT`
unfoldable pub new_attempt : AdmissionRequest → ℕ → Bool → Attempt
new_attempt q id restart = record {
  id = id;
  org = q.org_id;
  team = q.team_id;
  drill = q.drill_id;
  rep = elim q.kind [ candidate ↦ none | _ ↦ q.account_id ];
  candidate = q.candidate_id;
  stage = q.assessment_stage_id;
  self_authored = q.self_authored;
  restart = restart;
  status = in_progress;
  ended_at = none;
  duration_seconds = none;
  recording_object_key = none;
  recording_status = no_recording;
}

-- T-1. `id` is the fresh `new_id()`.
unfoldable pub admit :
    Session → ℕ → ℕ → AdmissionRequest → Db → Result Problem (Db × AdmissionResult)
admit session consent_version id q db = do
  require_call_service_access session q.org_id
  raise_if (subject_fenced db q) token_invalid
  raise_if (not (has_current_consent db q.account_id q.candidate_id consent_version))
      consent_required
  db' ← consume_allowance session q db
  restart ← check_stage db' q
  ok (
    record db' { attempts = db'.attempts ++ new_attempt q id restart ∷ [] },
    record { attempt_id = id; restart = restart },
  )
