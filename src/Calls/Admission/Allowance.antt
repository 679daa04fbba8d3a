-- ===== src/Calls/Admission/Allowance.antt =====
-- src/bluelab/calls/admission.py: the attempts allowance is never overspent.
use bluelab_backend_prod.Prelude.{
  ℕ, ◌+◌, ◌-◌, ◌≤◌, ◌≡◌, Bool, true, false, ◌&&◌, Option, none, some, List, [], ◌∷◌, ◌==◌, same_id,
  any, if◌then◌else◌, ok, err, inl, inr, Result-cases, subst, arith,
}
use bluelab_backend_prod.Calls.Database.{Db, Assignment, Recipient, eq_param}
use bluelab_backend_prod.Calls.Admission.{
  AdmissionRequest, AdmissionResult, Session, consume_allowance, consumable, consume, is_metered,
  admit, assignment_of, has_room,
}

-- What one row leaves of a rep's allowance for a drill.
pub room_of : List Assignment → ℕ → Option ℕ → Recipient → ℕ
room_of assignments drill who r = elim (assignment_of assignments r) [
  | none ↦ 0
  | some a ↦
      if a.drill == drill && eq_param who r.rep then a.attempts_allowed - r.attempts_used else 0
]

pub room_left : List Assignment → ℕ → Option ℕ → List Recipient → ℕ
room_left assignments drill who [] = 0
room_left assignments drill who (r ∷ rs) =
    room_of assignments drill who r + room_left assignments drill who rs

module _ (assignments : List Assignment) (drill : ℕ) (who : Option ℕ) where
  room_of-used :
      (r : Recipient)
      → room_of assignments drill who (record r { attempts_used = r.attempts_used + 1 })
        ≤ room_of assignments drill who r
  unfolding room_of assignment_of
  room_of-used r = ground arith

  room_of-has_room :
      (r : Recipient)
      → has_room assignments drill who r ≡ true
      → room_of assignments drill who (record r { attempts_used = r.attempts_used + 1 }) + 1
        ≤ room_of assignments drill who r
  unfolding room_of has_room assignment_of
  room_of-has_room r h = ground arith

  pub room_left-consume :
      (test : Recipient → Bool) (rs : List Recipient)
      → room_left assignments drill who (consume test rs) ≤ room_left assignments drill who rs
  unfolding room_left consume
  room_left-consume test [] = omega arith
  room_left-consume test (r ∷ rs) = ground (arith, room_left-consume test rs, room_of-used r)

  pub room_left-consume-any :
      (test : Recipient → Bool) (rs : List Recipient)
      → ((r : Recipient) → test r ≡ true → has_room assignments drill who r ≡ true)
      → any test rs ≡ true
      → room_left assignments drill who (consume test rs) + 1 ≤ room_left assignments drill who rs
  unfolding room_left consume
  room_left-consume-any test [] sound h = cc
  room_left-consume-any test (r ∷ rs) sound h = ground (
    arith,
    sound r,
    room_of-has_room r,
    room_of-used r,
    room_left-consume test rs,
    room_left-consume-any test rs sound,
  )

consumable-has_room :
    (session : Session) (assignments : List Assignment) (q : AdmissionRequest) (drill : ℕ)
    (who : Option ℕ) (r : Recipient)
    → (q.drill_id == drill) ≡ true
    → same_id q.account_id who ≡ true
    → consumable session assignments q r ≡ true
    → has_room assignments drill who r ≡ true
unfolding consumable has_room
consumable-has_room session assignments q drill who r d w h = ground arith

-- One admission attempt of a sequence: its session, consent version, fresh id and request.
pub record Try : Type 0 where
  pub session : Session
  pub version : ℕ
  pub id : ℕ
  pub request : AdmissionRequest

-- The database after the attempt; a refusal is rolled back.
pub after : Try → Db → Db
after t db = elim (admit t.session t.version t.id t.request db) [ ok (db', r) ↦ db' | err e ↦ db ]

-- Whether it was admitted against the allowance of this rep for this drill.
pub spends : ℕ → Option ℕ → Try → Db → Bool
spends drill who t db =
    is_metered t.request
    && t.request.drill_id == drill
    && same_id t.request.account_id who
    && (elim (admit t.session t.version t.id t.request db) [ ok x ↦ true | err e ↦ false ])

pub spent : ℕ → Option ℕ → List Try → Db → ℕ
spent drill who [] db = 0
spent drill who (t ∷ ts) db =
    (if spends drill who t db then 1 else 0) + spent drill who ts (after t db)

after-assignments : (t : Try) (db : Db) → (after t db).assignments ≡ db.assignments
unfolding after admit consume_allowance
after-assignments t db = ground arith

-- An admission against the allowance has found a row with room.
pub admit_metered :
    (t : Try) (db : Db) {db' : Db} {r : AdmissionResult}
    → admit t.session t.version t.id t.request db ≡ ok (db', r)
    → (db'.recipients ≡ (
        if is_metered t.request
        then consume (consumable t.session db.assignments t.request) db.recipients
        else db.recipients))
      × (is_metered t.request ≡ true
          → any (consumable t.session db.assignments t.request) db.recipients ≡ true)
unfolding admit consume_allowance
admit_metered t db h = ground arith

after-room :
    (drill : ℕ) (who : Option ℕ) (t : Try) (db : Db)
    → room_left db.assignments drill who (after t db).recipients
        + (if spends drill who t db then 1 else 0)
      ≤ room_left db.assignments drill who db.recipients
unfolding after spends
after-room drill who t db =
    let test = consumable t.session db.assignments t.request in
    elim (Result-cases (admit t.session t.version t.id t.request db)) [
      | inr (e, refused) ↦ ground arith
      | inl ((db', r), done) ↦ ground (
        arith,
        admit_metered t db done,
        room_left-consume db.assignments drill who test db.recipients,
        λ (d : (t.request.drill_id == drill) ≡ true) (w : same_id t.request.account_id who ≡ true).
            room_left-consume-any db.assignments drill who test db.recipients
              (λ r'. consumable-has_room t.session db.assignments t.request drill who r' d w),
      )
    ]

-- Over any sequence of admission attempts, of whatever sessions and requests, the calls that
-- are admitted against a rep's allowance for a drill are at most what was left of it.
pub spent-le-room_left :
    (drill : ℕ) (who : Option ℕ) (ts : List Try) (db : Db)
    → spent drill who ts db ≤ room_left db.assignments drill who db.recipients
unfolding spent
spent-le-room_left drill who [] db = omega arith
spent-le-room_left drill who (t ∷ ts) db = omega (
  arith,
  after-room drill who t db,
  subst
      (λ (a : List Assignment).
        spent drill who ts (after t db) ≤ room_left a drill who (after t db).recipients)
      (after-assignments t db) (spent-le-room_left drill who ts (after t db)),
)
