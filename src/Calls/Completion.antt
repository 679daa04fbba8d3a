-- ===== src/Calls/Completion.antt =====
-- src/bluelab/calls/completion.py: T-2, the completion hand-off. The row lock on the attempt makes
-- the transaction one step; `now` and the e-mail's `new_id()` are arguments.
pub mod Once
pub mod Closing
use text.Mathlib.Text.{◌==◌ as text_eq}
use bluelab_backend_prod.Prelude.{
  ℕ, ◌+◌, String, Bool, true, false, ◌&&◌, ◌||◌, not, Option, none, some, List, [], ◌∷◌, ◌++◌, map,
  ◌==◌, leb, any, all, find, is_none, is_some, if◌then◌else◌,
}
use bluelab_backend_prod.Calls.Text.{Unicode, safe_plain_text}
use bluelab_backend_prod.Calls.Database.{
  Db, Attempt, Candidate, CompletionEmail, Job, Stage, Status, in_progress, completed,
  TranscriptEntry, Work, grade_attempt, render_report, dispatch_email, no_recording, pending_upload,
  SubjectKind, account_subject, candidate_subject, is_in_progress, is_fenced, stage_done,
  stage_interrupted, plan,
}

pub record TranscriptRow : Type 0 where
  pub seq : ℕ
  pub speaker : String
  pub at_ms : ℕ
  pub text : String
  pub demeanor_label : Option String

-- `enqueue`, in the caller's transaction
unfoldable pub enqueue : Work → ℕ → ℕ → Db → Db
enqueue work org team db = record db {
  jobs = db.jobs ++ record { work = work; org = org; team = team } ∷ [];
}

-- done, or interrupted twice
unfoldable pub is_closed : Db → ℕ → Stage → Bool
is_closed db cand st = stage_done db cand st.id || leb 2 (stage_interrupted db cand st.id)

-- the `where` clause of `_LAST_OPEN_STAGE`
unfoldable pub closes : Db → ℕ → Candidate → Bool
unfolding is_closed
closes db cand c =
    c.id == cand && is_none c.completed_at && all (is_closed db cand) (plan db (some cand))

unfoldable pub complete_candidates : (Candidate → Bool) → ℕ → List Candidate → List Candidate
complete_candidates test now [] = []
complete_candidates test now (c ∷ cs) =
    (if test c then record c { completed_at = some now } else c) ∷ complete_candidates test now cs

-- The row that `_CREATE_E5` selects.
unfoldable pub wants_email : Db → ℕ → Bool
wants_email db cand =
    any
      (λ c.
        c.id == cand
        && is_some c.completed_at
        && any (λ p. p.id == c.position && p.notify_on_completion) db.positions)
      db.candidates

-- `_CREATE_E5`: insert, on conflict (kind, dedupe_key) do nothing
unfoldable pub create_email : ℕ → ℕ → Db → Db × Bool
unfolding wants_email
create_email id cand db =
    if wants_email db cand && not (any (λ e. e.candidate == cand) db.emails)
    then (record db { emails = db.emails ++ record { id = id; candidate = cand } ∷ [] }, true)
    else (db, false)

unfoldable pub advance_candidate_if_closed : ℕ → ℕ → ℕ → ℕ → ℕ → Db → Db × Bool
unfolding enqueue closes complete_candidates create_email
advance_candidate_if_closed now email_id cand org team db =
    if any (closes db cand) db.candidates
    then (let closed = record db {
      candidates = complete_candidates (closes db cand) now db.candidates;
    } in
        let reported = enqueue (render_report cand) org team closed in
        let (mailed, created) = create_email email_id cand reported in
        (if created then enqueue (dispatch_email email_id) org team mailed else mailed, true))
    else (db, false)

-- `_COMPLETE_ATTEMPT`
unfoldable pub complete_attempts : ℕ → ℕ → ℕ → Option String → List Attempt → List Attempt
complete_attempts attempt ended_at duration key [] = []
complete_attempts attempt ended_at duration key (a ∷ rest) =
    (if a.id == attempt && is_in_progress a.status
      then record a {
        status = completed;
        ended_at = some ended_at;
        duration_seconds = some duration;
        recording_object_key = key;
        recording_status = elim key [
          | none ↦ no_recording
          | some k ↦ if text_eq k "" then no_recording else pending_upload
        ];
      }
      else a)
    ∷ complete_attempts attempt ended_at duration key rest

-- safe_plain_text(label) if label else None
unfoldable pub safe_label : Unicode → Option String → Option String
safe_label u none = none
safe_label u (some label) = if text_eq label "" then none else some (safe_plain_text u label)

pub record Completion : Type 0 where
  pub attempt_id : ℕ
  pub org_id : ℕ
  pub team_id : ℕ
  pub rows : List TranscriptRow
  pub ended_at : ℕ
  pub duration_seconds : ℕ
  pub recording_object_key : Option String
  pub candidate_id : Option ℕ

-- `_INSERT_TRANSCRIPT`
unfoldable pub entry : Unicode → Completion → TranscriptRow → TranscriptEntry
unfolding safe_label
entry u c r = record {
  attempt = c.attempt_id;
  seq = r.seq;
  org = c.org_id;
  team = c.team_id;
  speaker = r.speaker;
  at_ms = r.at_ms;
  text = safe_plain_text u r.text;
  demeanor_label = safe_label u r.demeanor_label;
}

-- Whether the attempt's own subject is under erasure.
unfoldable pub participant_fenced : Db → ℕ → Attempt → Bool
participant_fenced db org a = elim a.rep [
  | some r ↦ is_fenced db org account_subject r
  | none ↦ elim a.candidate [ some c ↦ is_fenced db org candidate_subject c | none ↦ false ]
]

-- The writes of a completion that has claimed its attempt.
unfoldable pub hand_off : Unicode → ℕ → ℕ → Completion → Db → Db
unfolding enqueue complete_attempts entry
hand_off u now email_id c db =
    let captured = record db { transcript = db.transcript ++ map (entry u c) c.rows } in
    let flipped = record captured {
      attempts =
          complete_attempts c.attempt_id c.ended_at c.duration_seconds c.recording_object_key
            captured.attempts;
    } in
    let advanced : Db = elim c.candidate_id [
      | none ↦ flipped
      | some cand ↦ (advance_candidate_if_closed now email_id cand c.org_id c.team_id flipped).0
    ] in
    enqueue (grade_attempt c.attempt_id) c.org_id c.team_id advanced

-- T-2. The attempt's id is its primary key, so after the claim the conditional flip finds it.
unfoldable pub complete : Unicode → ℕ → ℕ → Completion → Db → Db × Bool
complete u now email_id c db = elim (find (λ a. a.id == c.attempt_id) db.attempts) [
  | none ↦ (db, false)
  | some a ↦
      if participant_fenced db c.org_id a
      then (db, false)
      else if is_in_progress a.status
      then (hand_off u now email_id c db, true)
      else (db, false)
]
