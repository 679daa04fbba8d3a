-- ===== src/Calls/Completion/Once.antt =====
-- src/bluelab/calls/completion.py: what a completion writes, and that a live attempt is needed.
use bluelab_backend_prod.Prelude.{
  ℕ, String, ◌≡◌, refl, Bool, true, false, ◌&&◌, Option, none, some, if◌then◌else◌, List, [], ◌∷◌,
  ◌++◌, map, ◌==◌, any, find, ap, arith, Option-cases, Bool-cases, inl, inr,
}
use text.Mathlib.Text.{◌==◌ as text_eq}
use bluelab_backend_prod.Calls.Text.{Unicode, safe_plain_text}
use bluelab_backend_prod.Calls.Database.{
  Db, Attempt, Job, TranscriptEntry, completed, no_recording, pending_upload, is_in_progress,
  grade_attempt, render_report, dispatch_email,
}
use bluelab_backend_prod.Calls.Completion.{
  Completion, TranscriptRow, safe_label, complete, hand_off, complete_attempts, entry,
  advance_candidate_if_closed, closes, complete_candidates, create_email, enqueue,
}

-- id = :attempt and status = 'in_progress'
unfoldable pub live_as : ℕ → Attempt → Bool
live_as attempt a = a.id == attempt && is_in_progress a.status

pub find-live :
    (attempt : ℕ) (rows : List Attempt) {a : Attempt}
    → find (λ x. x.id == attempt) rows ≡ some a
    → is_in_progress a.status ≡ true
    → any (live_as attempt) rows ≡ true
unfolding live_as
find-live attempt [] h live = cc
find-live attempt (x ∷ rows) {a} h live = ground (arith, find-live attempt rows {a = a})

pub complete_attempts-not_live :
    (attempt ended duration : ℕ) (key : Option String) (rows : List Attempt)
    → any (live_as attempt) (complete_attempts attempt ended duration key rows) ≡ false
unfolding complete_attempts live_as
complete_attempts-not_live attempt ended duration key [] = refl
complete_attempts-not_live attempt ended duration key (a ∷ rows) =
    ground (arith, complete_attempts-not_live attempt ended duration key rows)

-- Closing a candidate's plan leaves these tables alone.
pub advance_keeps :
    (now email cand org team : ℕ) (db : Db)
    → let db' = (advance_candidate_if_closed now email cand org team db).0 in
      (db'.attempts ≡ db.attempts)
      × (db'.transcript ≡ db.transcript)
      × (db'.recipients ≡ db.recipients)
      × (db'.assignments ≡ db.assignments)
unfolding advance_candidate_if_closed
advance_keeps now email cand org team db = ground arith

append_none : (xs : List Job) → xs ++ [] ≡ xs
append_none [] = refl
append_none (x ∷ xs) = ap (λ (ys : List Job). x ∷ ys) (append_none xs)

append_two : (xs : List Job) (a b : Job) → (xs ++ a ∷ []) ++ b ∷ [] ≡ xs ++ a ∷ b ∷ []
append_two [] a b = refl
append_two (x ∷ xs) a b = ap (λ (ys : List Job). x ∷ ys) (append_two xs a b)

create_email-jobs : (id cand : ℕ) (db : Db) → (create_email id cand db).0.jobs ≡ db.jobs
unfolding create_email
create_email-jobs id cand db = ground arith

-- Closing a candidate's plan only adds jobs.
advance_jobs :
    (now email cand org team : ℕ) (db : Db)
    → (extra : List Job) × ((advance_candidate_if_closed now email cand org team db).0.jobs
        ≡ db.jobs ++ extra)
unfolding advance_candidate_if_closed enqueue
advance_jobs now email cand org team db =
    let report : Job = record { work = render_report cand; org = org; team = team } in
    let mail : Job = record { work = dispatch_email email; org = org; team = team } in
    let reported : Db = record db {
      candidates = complete_candidates (closes db cand) now db.candidates;
      jobs = db.jobs ++ report ∷ [];
    } in
    elim (Bool-cases (any (closes db cand) db.candidates)) [
      | inr going ↦ ([], ground (arith, append_none db.jobs))
      | inl shut ↦ elim (Bool-cases (create_email email cand reported).1) [
        | inr quiet ↦ (report ∷ [], ground (arith, create_email-jobs email cand reported))
        | inl sent ↦ (
          report ∷ mail ∷ [],
          ground (arith, create_email-jobs email cand reported, append_two db.jobs report mail),
        )
      ]
    ]

-- What is to be stored of a row of the call's transcript: its text and its label as plain text,
-- and no label where it is empty.
abbrev pub as_spoken : Unicode → Completion → TranscriptRow → TranscriptEntry
as_spoken u c r = record {
  attempt = c.attempt_id;
  seq = r.seq;
  org = c.org_id;
  team = c.team_id;
  speaker = r.speaker;
  at_ms = r.at_ms;
  text = safe_plain_text u r.text;
  demeanor_label = elim r.demeanor_label [
    | none ↦ none
    | some label ↦ if text_eq label "" then none else some (safe_plain_text u label)
  ];
}

-- What is to become of an attempt: the one of the call, if it is in progress, is completed.
abbrev pub as_ended : Completion → Attempt → Attempt
as_ended c a =
    if a.id == c.attempt_id && is_in_progress a.status
    then record a {
      status = completed;
      ended_at = some c.ended_at;
      duration_seconds = some c.duration_seconds;
      recording_object_key = c.recording_object_key;
      recording_status = elim c.recording_object_key [
        | none ↦ no_recording
        | some k ↦ if text_eq k "" then no_recording else pending_upload
      ];
    }
    else a

entry-as_spoken : (u : Unicode) (c : Completion) (r : TranscriptRow) → entry u c r ≡ as_spoken u c r
unfolding entry safe_label
entry-as_spoken u c r = elim (Option-cases r.demeanor_label) [
  | inl unlabelled ↦ rw unlabelled refl
  | inr (label, e) ↦ rw e refl
]

map-entry :
    (u : Unicode) (c : Completion) (rows : List TranscriptRow)
    → map (entry u c) rows ≡ map (as_spoken u c) rows
map-entry u c [] = refl
map-entry u c (r ∷ rows) = rw (entry-as_spoken u c r, map-entry u c rows) refl

pub complete_attempts-as_ended :
    (c : Completion) (rows : List Attempt)
    → complete_attempts c.attempt_id c.ended_at c.duration_seconds c.recording_object_key rows
      ≡ map (as_ended c) rows
unfolding complete_attempts
complete_attempts-as_ended c [] = refl
complete_attempts-as_ended c (a ∷ rows) =
    ap (λ ys. as_ended c a ∷ ys) (complete_attempts-as_ended c rows)

module _ (u : Unicode) (now email : ℕ) (c : Completion) (db : Db) where
  abbrev flipped : Db
  flipped = record db {
    transcript = db.transcript ++ map (entry u c) c.rows;
    attempts =
        complete_attempts c.attempt_id c.ended_at c.duration_seconds c.recording_object_key
          db.attempts;
  }

  hand_off_keeps :
      let db' = hand_off u now email c db in
      (db'.attempts ≡ flipped.attempts)
      × (db'.transcript ≡ flipped.transcript)
      × (db'.recipients ≡ db.recipients)
      × ((extra : List Job) × (db'.jobs
            ≡ (db.jobs ++ extra)
              ++ record { work = grade_attempt c.attempt_id; org = c.org_id; team = c.team_id }
                ∷ []))
  unfolding hand_off
  hand_off_keeps = elim (Option-cases c.candidate_id) [
    | inl nobody ↦
        (ground arith, ground arith, ground arith, ([], ground (arith, append_none db.jobs)))
    | inr (cand, e) ↦
        let keeps = advance_keeps now email cand c.org_id c.team_id flipped in
        let more = advance_jobs now email cand c.org_id c.team_id flipped in
        (
          ground (arith, keeps.0),
          ground (arith, keeps.1),
          ground (arith, keeps.2),
          (more.0, ground (arith, more.1)),
        )
  ]

  -- A completion that succeeds had an attempt in progress, and leaves none.
  pub complete-live :
      (complete u now email c db).1 ≡ true
      → (any (live_as c.attempt_id) db.attempts ≡ true)
        × (any (live_as c.attempt_id) (complete u now email c db).0.attempts ≡ false)
  unfolding complete
  complete-live h = elim (Option-cases (find (λ a. a.id == c.attempt_id) db.attempts)) [
    | inl missing ↦ ground arith
    | inr (a, e) ↦ ground (
      arith,
      find-live c.attempt_id db.attempts {a = a} e,
      hand_off_keeps,
      complete_attempts-not_live c.attempt_id c.ended_at c.duration_seconds c.recording_object_key
          db.attempts,
    )
  ]

  pub complete-not_live :
      any (live_as c.attempt_id) db.attempts ≡ false → complete u now email c db ≡ (db, false)
  unfolding complete
  complete-not_live h = elim (Option-cases (find (λ a. a.id == c.attempt_id) db.attempts)) [
    | inl missing ↦ ground arith
    | inr (a, e) ↦ ground (arith, find-live c.attempt_id db.attempts {a = a} e)
  ]

  -- A completion that does not succeed has written nothing.
  pub complete-refused : (complete u now email c db).1 ≡ false → (complete u now email c db).0 ≡ db
  unfolding complete
  complete-refused h = elim (Option-cases (find (λ a. a.id == c.attempt_id) db.attempts)) [
    | inl missing ↦ ground arith
    | inr (a, e) ↦ ground arith
  ]

  -- A completion that succeeds has written, together: each row of the call at the end of the
  -- transcript, as plain text; the end, the duration and the recording of the attempt, and of no
  -- other attempt; and, behind the jobs that there were, as the last job the grading of the attempt.
  -- It spends no allowance and gives none back.
  pub complete_atomic :
      (complete u now email c db).1 ≡ true
      → let db' = (complete u now email c db).0 in
        (db'.transcript ≡ db.transcript ++ map (as_spoken u c) c.rows)
        × (db'.attempts ≡ map (as_ended c) db.attempts)
        × (db'.recipients ≡ db.recipients)
        × ((extra : List Job) × (db'.jobs
              ≡ (db.jobs ++ extra)
                ++ record { work = grade_attempt c.attempt_id; org = c.org_id; team = c.team_id }
                  ∷ []))
  unfolding complete
  complete_atomic h = elim (Option-cases (find (λ a. a.id == c.attempt_id) db.attempts)) [
    | inl missing ↦ absurd (ground arith)
    | inr (a, e) ↦
        let keeps = hand_off_keeps in
        (
          rw (← map-entry u c c.rows) (ground (arith, keeps.0, keeps.1)),
          rw (← complete_attempts-as_ended c db.attempts) (ground (arith, keeps.0)),
          ground (arith, keeps.2),
          (keeps.3.0, ground (arith, keeps.3.1)),
        )
  ]
