-- ===== src/Calls/Interruption/Refund.antt =====
-- src/bluelab/calls/interruption.py: a call that fails is free. The admission's use of the
-- allowance comes back.
use bluelab_backend_prod.Prelude.{
  ℕ, ◌+◌, ◌-◌, ◌≡◌, refl, subst, Bool, true, false, not, Option, none, some, List, [], ◌∷◌, ◌++◌,
  ◌==◌, any, keep, count_if, arith, ok, Bool-cases, inl, inr,
}
use bluelab_backend_prod.Calls.Database.{Db, Attempt, Assignment, Recipient, in_progress}
use bluelab_backend_prod.Calls.Admission.{
  AdmissionRequest, AdmissionResult, Session, admit, consume, consumable, has_room, is_recipient,
  assignment_of, is_metered, new_attempt,
}
use bluelab_backend_prod.Calls.Admission.Allowance.{admit_metered, Try}
use bluelab_backend_prod.Calls.Admission.Clearance.{admit_writes}
use bluelab_backend_prod.Calls.Interruption.{
  never_established, is_live, reverse_allowance, end_attempt, settle_subject, interrupt,
}

module _ (assignments : List Assignment) (drill : ℕ) (who : Option ℕ)
    (test : Recipient → Bool) where
  reverse-consume_none :
      (rs : List Recipient)
      → ((r : Recipient) → test r ≡ true → is_recipient assignments drill who r ≡ true)
      → count_if (is_recipient assignments drill who) rs ≡ 0
      → (reverse_allowance assignments drill who (consume test rs) ≡ rs) × (any test rs ≡ false)
  unfolding reverse_allowance consume
  reverse-consume_none [] sound h = (refl, refl)
  reverse-consume_none (r ∷ rs) sound h = ground (arith, sound r, reverse-consume_none rs sound)

  is_recipient-used :
      (r : Recipient) (n : ℕ)
      → is_recipient assignments drill who (record r { attempts_used = n })
        ≡ is_recipient assignments drill who r
  unfolding is_recipient assignment_of
  is_recipient-used r n = refl

  reverse-consume :
      (rs : List Recipient)
      → ((r : Recipient) → test r ≡ true → is_recipient assignments drill who r ≡ true)
      → count_if (is_recipient assignments drill who) rs ≡ 1
      → any test rs ≡ true
      → reverse_allowance assignments drill who (consume test rs) ≡ rs
  unfolding reverse_allowance consume
  reverse-consume [] sound once found = cc
  reverse-consume (r ∷ rs) sound once found =
      elim (Bool-cases (is_recipient assignments drill who r)) [
        | inl mine ↦
            let rest = reverse-consume_none rs sound (ground arith) in
            let spent : test r ≡ true = ground (arith, rest.1) in
            let back : r.attempts_used + 1 - 1 ≡ r.attempts_used = omega arith in
            rw (spent, is_recipient-used r (r.attempts_used + 1), mine, back, rest.0)
        | inr other ↦
            let unspent : test r ≡ false = ground (arith, sound r) in
            let ih = reverse-consume rs sound (ground arith) (ground arith) in
            rw (unspent, other, ih)
      ]

consumable-is_recipient :
    (session : Session) (assignments : List Assignment) (q : AdmissionRequest) (r : Recipient)
    → consumable session assignments q r ≡ true
    → is_recipient assignments q.drill_id q.account_id r ≡ true
unfolding consumable has_room is_recipient
consumable-is_recipient session assignments q r h = ground arith

new_attempt-fields :
    (q : AdmissionRequest) (id : ℕ) (restart : Bool)
    → ((new_attempt q id restart).id ≡ id) × ((new_attempt q id restart).status ≡ in_progress)
unfolding new_attempt
new_attempt-fields q id restart = (refl, refl)

delete-appended :
    (attempt : ℕ) (rows : List Attempt) (a : Attempt)
    → any (λ x. x.id == attempt) rows ≡ false
    → a.id ≡ attempt
    → a.status ≡ in_progress
    → keep (λ x. not (is_live attempt x)) (rows ++ a ∷ []) ≡ rows
unfolding is_live
delete-appended attempt [] a fresh same live = ground arith
delete-appended attempt (x ∷ rows) a fresh same live =
    ground (arith, delete-appended attempt rows a)

appended-live :
    (attempt : ℕ) (rows : List Attempt) (a : Attempt)
    → a.id ≡ attempt
    → a.status ≡ in_progress
    → any (is_live attempt) (rows ++ a ∷ []) ≡ true
unfolding is_live
appended-live attempt [] a same live = ground arith
appended-live attempt (x ∷ rows) a same live = ground (arith, appended-live attempt rows a)

-- A metered admission that is then reported as never established leaves the database as it was
-- before the admission: the attempt's row is gone and the allowance is restored. The attempt's
-- id is fresh, and the rep has one recipient row for the drill.
pub admit-interrupt :
    (session : Session) (version id now email : ℕ) (q : AdmissionRequest) (who : ℕ) (db : Db)
    {db' : Db} {r : AdmissionResult} (org team : Option ℕ)
    → is_metered q ≡ true
    → q.account_id ≡ some who
    → any (λ a. a.id == id) db.attempts ≡ false
    → count_if (is_recipient db.assignments q.drill_id (some who)) db.recipients ≡ 1
    → admit session version id q db ≡ ok (db', r)
    → interrupt now email
        (record {
          attempt_id = id;
          drill_id = q.drill_id;
          rep_account_id = some who;
          disposition = never_established;
          candidate_id = none;
          org_id = org;
          team_id = team;
        })
        db'
      ≡ (db, true)
unfolding interrupt end_attempt settle_subject
admit-interrupt session version id now email q who db {db'} {r} org team metered account fresh once
      h =
    let t : Try = record { session = session; version = version; id = id; request = q } in
    let test = consumable session db.assignments q in
    let row = new_attempt q id r.restart in
    let written = admit_writes session version id q db h in
    let consumed = admit_metered t db h in
    let restored =
      reverse-consume db.assignments q.drill_id (some who) test db.recipients
        (λ x found.
          subst (λ (w : Option ℕ). is_recipient db.assignments q.drill_id w x ≡ true) account
            (consumable-is_recipient session db.assignments q x found))
        once (consumed.1 metered) in
    ground (
      arith,
      written.1,
      consumed.0,
      restored,
      appended-live id db.attempts row (new_attempt-fields q id r.restart).0
          (new_attempt-fields q id r.restart).1,
      delete-appended id db.attempts row fresh (new_attempt-fields q id r.restart).0
          (new_attempt-fields q id r.restart).1,
    )
