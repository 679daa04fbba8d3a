-- ===== src/Calls/Interruption.antt =====
-- src/bluelab/calls/interruption.py: T-6, void the attempt and reverse the allowance.
pub mod Terminal
pub mod Refund
pub mod Dead
use bluelab_backend_prod.Prelude.{
  ℕ, ◌-◌, Bool, true, false, ◌&&◌, not, Option, none, some, List, [], ◌∷◌, ◌==◌, any, keep,
  if◌then◌else◌,
}
use bluelab_backend_prod.Calls.Database.{
  Db, Attempt, Assignment, Recipient, interrupted, is_in_progress,
}
use bluelab_backend_prod.Calls.Admission.{is_recipient}
use bluelab_backend_prod.Calls.Completion.{advance_candidate_if_closed}

pub data Disposition : Type 0 where
  participant_dropped grace_exceeded instance_lost never_established : Disposition

abbrev pub is_never_established : Disposition → Bool
is_never_established never_established = true
is_never_established _ = false

-- where id = :attempt and status = 'in_progress'
unfoldable pub is_live : ℕ → Attempt → Bool
is_live attempt a = a.id == attempt && is_in_progress a.status

-- `_VOID_ATTEMPT`
unfoldable pub void_attempts : ℕ → ℕ → List Attempt → List Attempt
unfolding is_live
void_attempts now attempt [] = []
void_attempts now attempt (a ∷ rest) =
    (if is_live attempt a then record a { status = interrupted; ended_at = some now } else a)
    ∷ void_attempts now attempt rest

-- `_REVERSE_ALLOWANCE`: greatest(attempts_used - 1, 0)
pub reverse_allowance : List Assignment → ℕ → Option ℕ → List Recipient → List Recipient
reverse_allowance assignments drill who [] = []
reverse_allowance assignments drill who (r ∷ rs) =
    (if is_recipient assignments drill who r
      then record r { attempts_used = r.attempts_used - 1 }
      else r)
    ∷ reverse_allowance assignments drill who rs

pub record Interruption : Type 0 where
  pub attempt_id : ℕ
  pub drill_id : ℕ
  pub rep_account_id : Option ℕ
  pub disposition : Disposition
  pub candidate_id : Option ℕ
  pub org_id : Option ℕ
  pub team_id : Option ℕ

-- `_DELETE_ATTEMPT` or `_VOID_ATTEMPT`
unfoldable pub end_attempt : ℕ → Interruption → List Attempt → List Attempt
unfolding void_attempts
end_attempt now i attempts =
    if is_never_established i.disposition
    then keep (λ a. not (is_live i.attempt_id a)) attempts
    else void_attempts now i.attempt_id attempts

pub settle_subject : ℕ → ℕ → Interruption → Db → Db
unfolding reverse_allowance
settle_subject now email_id i db = elim i.rep_account_id [
  | some who ↦ record db {
    recipients = reverse_allowance db.assignments i.drill_id (some who) db.recipients;
  }
  | none ↦ if is_never_established i.disposition then db else elim i.candidate_id [
    | none ↦ db
    | some cand ↦ elim i.org_id [
      | none ↦ db
      | some org ↦ elim i.team_id [
        | none ↦ db
        | some team ↦ (advance_candidate_if_closed now email_id cand org team db).0
      ]
    ]
  ]
]

pub interrupt : ℕ → ℕ → Interruption → Db → Db × Bool
unfolding end_attempt settle_subject
interrupt now email_id i db =
    if any (is_live i.attempt_id) db.attempts
    then (
      settle_subject now email_id i (record db { attempts = end_attempt now i db.attempts }),
      true,
    )
    else (db, false)
