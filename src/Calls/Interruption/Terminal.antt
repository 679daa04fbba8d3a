-- ===== src/Calls/Interruption/Terminal.antt =====
-- src/bluelab/calls/completion.py and interruption.py: an attempt ends once. The runtime, the
-- sweep and the webhook may all report its end, in any order.
use bluelab_backend_prod.Prelude.{
  ℕ, ◌+◌, ◌≤◌, ◌≡◌, refl, Bool, true, false, not, List, [], ◌∷◌, any, keep, if◌then◌else◌, arith,
  Bool-cases, inl, inr, Option-cases, All,
}
use bluelab_backend_prod.Calls.Text.{Unicode}
use bluelab_backend_prod.Calls.Database.{Db, Attempt}
use bluelab_backend_prod.Calls.Completion.{Completion, complete}
use bluelab_backend_prod.Calls.Completion.Once.{
  live_as, complete-live, complete-not_live, complete-refused, advance_keeps,
}
use bluelab_backend_prod.Calls.Interruption.{
  Interruption, is_live, void_attempts, end_attempt, settle_subject, interrupt,
}

is_live-eq :
    (attempt : ℕ) (rows : List Attempt) → any (is_live attempt) rows ≡ any (live_as attempt) rows
unfolding is_live live_as
is_live-eq attempt [] = refl
is_live-eq attempt (a ∷ rows) = ground (arith, is_live-eq attempt rows)

void_attempts-not_live :
    (now attempt : ℕ) (rows : List Attempt)
    → any (is_live attempt) (void_attempts now attempt rows) ≡ false
unfolding void_attempts is_live
void_attempts-not_live now attempt [] = refl
void_attempts-not_live now attempt (a ∷ rows) =
    ground (arith, void_attempts-not_live now attempt rows)

delete-not_live :
    (attempt : ℕ) (rows : List Attempt)
    → any (is_live attempt) (keep (λ a. not (is_live attempt a)) rows) ≡ false
delete-not_live attempt [] = refl
delete-not_live attempt (a ∷ rows) = ground (arith, delete-not_live attempt rows)

pub end_attempt-not_live :
    (now : ℕ) (i : Interruption) (rows : List Attempt)
    → any (is_live i.attempt_id) (end_attempt now i rows) ≡ false
unfolding end_attempt
end_attempt-not_live now i rows =
    ground (arith, void_attempts-not_live now i.attempt_id rows, delete-not_live i.attempt_id rows)

pub attempts-settle :
    (now email : ℕ) (i : Interruption) (db : Db)
    → (settle_subject now email i db).attempts ≡ db.attempts
unfolding settle_subject
attempts-settle now email i db = elim (Option-cases i.candidate_id) [
  | inl nobody ↦ ground arith
  | inr (cand, c) ↦ elim (Option-cases i.org_id) [
    | inl none_org ↦ ground arith
    | inr (org, o) ↦ elim (Option-cases i.team_id) [
      | inl none_team ↦ ground arith
      | inr (team, t) ↦ ground (arith, advance_keeps now email cand org team db)
    ]
  ]
]

-- One report that the attempt has ended.
pub data Report : Type 0 where
  completes : ℕ → ℕ → Completion → Report
  interrupts : ℕ → ℕ → Interruption → Report

unfoldable pub attempt_of : Report → ℕ
attempt_of (completes now email c) = c.attempt_id
attempt_of (interrupts now email i) = i.attempt_id

unfoldable pub apply : Unicode → Report → Db → Db × Bool
apply u (completes now email c) db = complete u now email c db
apply u (interrupts now email i) db = interrupt now email i db

-- How many of the reports took effect.
pub effects : Unicode → List Report → Db → ℕ
effects u [] db = 0
effects u (r ∷ rs) db = (if (apply u r db).1 then 1 else 0) + effects u rs (apply u r db).0

pub outcome : Unicode → List Report → Db → Db
outcome u [] db = db
outcome u (r ∷ rs) db = outcome u rs (apply u r db).0

apply-live :
    (u : Unicode) (r : Report) (db : Db)
    → (apply u r db).1 ≡ true
    → (any (live_as (attempt_of r)) db.attempts ≡ true)
      × (any (live_as (attempt_of r)) (apply u r db).0.attempts ≡ false)
unfolding apply attempt_of interrupt
apply-live u (completes now email c) db h = complete-live u now email c db h
apply-live u (interrupts now email i) db h =
    let ended = record db { attempts = end_attempt now i db.attempts } in
    ground (
      arith,
      is_live-eq i.attempt_id db.attempts,
      is_live-eq i.attempt_id (end_attempt now i db.attempts),
      attempts-settle now email i ended,
      end_attempt-not_live now i db.attempts,
    )

apply-not_live :
    (u : Unicode) (r : Report) (db : Db)
    → any (live_as (attempt_of r)) db.attempts ≡ false
    → apply u r db ≡ (db, false)
unfolding apply attempt_of interrupt
apply-not_live u (completes now email c) db h = complete-not_live u now email c db h
apply-not_live u (interrupts now email i) db h = ground (arith, is_live-eq i.attempt_id db.attempts)

apply-ineffective :
    (u : Unicode) (r : Report) (db : Db) → (apply u r db).1 ≡ false → (apply u r db).0 ≡ db
unfolding apply interrupt
apply-ineffective u (completes now email c) db h = complete-refused u now email c db h
apply-ineffective u (interrupts now email i) db h = ground arith

ended_stays :
    (u : Unicode) (attempt : ℕ) (rs : List Report) (db : Db)
    → All (λ x. attempt_of x ≡ attempt) rs
    → any (live_as attempt) db.attempts ≡ false
    → (outcome u rs db ≡ db) × (effects u rs db ≡ 0)
unfolding outcome effects
ended_stays u attempt [] db same h = (refl, refl)
ended_stays u attempt (r ∷ rs) db same h =
    let ih = ended_stays u attempt rs db same.1 h in
    rw (apply-not_live u r db (rw same.0 h)) (ih.0, omega (arith, ih.1))

-- Of any sequence of reports, completions and interruptions mixed, that one attempt has ended,
-- at most one takes effect.
pub attempt_ends_once :
    (u : Unicode) (attempt : ℕ) (rs : List Report) (db : Db)
    → All (λ x. attempt_of x ≡ attempt) rs
    → effects u rs db ≤ 1
unfolding effects
attempt_ends_once u attempt [] db same = omega arith
attempt_ends_once u attempt (r ∷ rs) db same = elim (Bool-cases (apply u r db).1) [
  | inl took ↦
      let gone = (apply-live u r db took).1 in
      let rest = ended_stays u attempt rs (apply u r db).0 same.1 (rw same.0 at gone) in
      rw (took, rest.1) (omega arith)
  | inr lost ↦
      rw (lost, apply-ineffective u r db lost)
        (omega (arith, attempt_ends_once u attempt rs db same.1))
]

-- Once a report has taken effect, whatever else is reported of the attempt changes nothing: a
-- completed call is never voided, and a voided one is never completed.
pub ended_attempt_stays :
    (u : Unicode) (r : Report) (rs : List Report) (db : Db)
    → All (λ x. attempt_of x ≡ attempt_of r) rs
    → (apply u r db).1 ≡ true
    → outcome u (r ∷ rs) db ≡ (apply u r db).0
unfolding outcome
ended_attempt_stays u r rs db same took =
    (ended_stays u (attempt_of r) rs (apply u r db).0 same (apply-live u r db took).1).0
