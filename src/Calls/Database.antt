-- ===== src/Calls/Database.antt =====
-- The tables that the SQL statements of src/bluelab/calls read and write, with the columns they
-- use, and the stage plan of a candidate (src/bluelab/calls/admission.py, `_STAGE_STATE`, and
-- src/bluelab/calls/completion.py, `_LAST_OPEN_STAGE`). An id that a statement compares with
-- null matches nothing. Left out: the organisation of an e-mail row, which is its candidate's.
use bluelab_backend_prod.Prelude.{
  ℕ, String, Bool, true, false, ◌&&◌, Option, none, some, List, ◌==◌, any, keep, find, count_if,
}

pub data Status : Type 0 where
  in_progress completed grading_pending graded interrupted : Status

pub data RecordingStatus : Type 0 where
  no_recording pending_upload available unavailable : RecordingStatus

pub record Attempt : Type 0 where
  pub id : ℕ
  pub org : ℕ
  pub team : ℕ
  pub drill : ℕ
  pub rep : Option ℕ
  pub candidate : Option ℕ
  pub stage : Option ℕ
  pub self_authored : Bool
  pub restart : Bool
  pub status : Status
  pub ended_at : Option ℕ
  pub duration_seconds : Option ℕ
  pub recording_object_key : Option String
  pub recording_status : RecordingStatus

pub record Assignment : Type 0 where
  pub id : ℕ
  pub org : ℕ
  pub team : ℕ
  pub drill : ℕ
  pub attempts_allowed : ℕ

pub record Recipient : Type 0 where
  pub assignment : ℕ
  pub org : ℕ
  pub team : ℕ
  pub rep : ℕ
  pub attempts_used : ℕ

pub record Stage : Type 0 where
  pub id : ℕ
  pub position : ℕ
  pub ord : ℕ

pub record Candidate : Type 0 where
  pub id : ℕ
  pub position : ℕ
  pub completed_at : Option ℕ

pub record Position : Type 0 where
  pub id : ℕ
  pub notify_on_completion : Bool

pub record Consent : Type 0 where
  pub account : Option ℕ
  pub candidate : Option ℕ
  pub notice_version : ℕ

pub data SubjectKind : Type 0 where
  account_subject candidate_subject : SubjectKind

abbrev pub same_kind : SubjectKind → SubjectKind → Bool
same_kind account_subject account_subject = true
same_kind candidate_subject candidate_subject = true
same_kind _ _ = false

pub record ErasureRequest : Type 0 where
  pub org : ℕ
  pub kind : SubjectKind
  pub subject : ℕ

pub record TranscriptEntry : Type 0 where
  pub attempt : ℕ
  pub seq : ℕ
  pub org : ℕ
  pub team : ℕ
  pub speaker : String
  pub at_ms : ℕ
  pub text : String
  pub demeanor_label : Option String

pub data Work : Type 0 where
  grade_attempt render_report dispatch_email : ℕ → Work

pub record Job : Type 0 where
  pub work : Work
  pub org : ℕ
  pub team : ℕ

-- an `E5_completion` row of `email_send`; its dedupe key is the candidate
pub record CompletionEmail : Type 0 where
  pub id : ℕ
  pub candidate : ℕ

pub record Db : Type 0 where
  pub attempts : List Attempt
  pub assignments : List Assignment
  pub recipients : List Recipient
  pub stages : List Stage
  pub candidates : List Candidate
  pub positions : List Position
  pub consents : List Consent
  pub erasures : List ErasureRequest
  pub transcript : List TranscriptEntry
  pub jobs : List Job
  pub emails : List CompletionEmail

-- `column = :parameter` of a nullable parameter
abbrev pub eq_param : Option ℕ → ℕ → Bool
eq_param none a = false
eq_param (some p) a = p == a

-- `column = :parameter` of a nullable column
abbrev pub is_id : ℕ → Option ℕ → Bool
is_id a none = false
is_id a (some b) = a == b

abbrev pub is_in_progress : Status → Bool
is_in_progress in_progress = true
is_in_progress _ = false

abbrev pub is_interrupted : Status → Bool
is_interrupted interrupted = true
is_interrupted _ = false

-- status in ('completed','grading_pending','graded')
abbrev pub is_done : Status → Bool
is_done completed = true
is_done grading_pending = true
is_done graded = true
is_done _ = false

-- exists(select 1 from erasure_request where org_id=:org and subject_kind=:kind and ...)
unfoldable pub is_fenced : Db → ℕ → SubjectKind → ℕ → Bool
is_fenced db org kind subject =
    any (λ e. e.org == org && same_kind e.kind kind && e.subject == subject) db.erasures

-- exists (select 1 from attempt a where a.candidate_id = … and a.status in (…))
unfoldable pub stage_done : Db → ℕ → ℕ → Bool
stage_done db cand stage =
    any (λ a. is_id cand a.candidate && is_id stage a.stage && is_done a.status) db.attempts

-- (select count(*) from attempt a where … and a.status = 'interrupted')
unfoldable pub stage_interrupted : Db → ℕ → ℕ → ℕ
stage_interrupted db cand stage =
    count_if (λ a. is_id cand a.candidate && is_id stage a.stage && is_interrupted a.status)
      db.attempts

-- select position_id from candidate where id = :candidate
unfoldable pub position_of : Db → Option ℕ → Option ℕ
position_of db cand = elim (find (λ c. eq_param cand c.id) db.candidates) [
  | none ↦ none
  | some c ↦ some c.position
]

-- the stages of the candidate's position
unfoldable pub plan : Db → Option ℕ → List Stage
unfolding position_of
plan db cand = keep (λ st. eq_param (position_of db cand) st.position) db.stages
