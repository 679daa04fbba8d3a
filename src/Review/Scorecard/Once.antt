-- ===== src/Review/Scorecard/Once.antt =====
-- src/bluelab/modules/review/grading.py: a call is graded once.
use bluelab_backend_prod.Prelude.{
  ℕ, ◌+◌, ◌≤◌, ◌≡◌, refl, Bool, true, false, Option, none, some, List, [], ◌∷◌, ◌++◌, ◌==◌, any,
  count_if, if◌then◌else◌, ok, err, arith, Result-cases, Bool-cases, inl, inr, ◌⊎◌,
}
use bluelab_backend_prod.Review.Commentary.{Unicode}
use bluelab_backend_prod.Review.Scorecard.{
  Grading, ReviewDb, Scorecard, is_graded_already, write_scorecard, mark_graded, new_scorecard,
  validate_persistence_payload,
}
use bluelab_backend_prod.Review.Overall.{weighted_overall}

abbrev pub is_of : ℕ → Scorecard → Bool
is_of attempt s = s.attempt == attempt

any-append_one :
    (attempt : ℕ) (rows : List Scorecard) (s : Scorecard)
    → any (is_of attempt) (rows ++ s ∷ [])
      ≡ (if s.attempt == attempt then true else any (is_of attempt) rows)
any-append_one attempt [] s = ground arith
any-append_one attempt (x ∷ rows) s = ground (arith, any-append_one attempt rows s)

count-append_one :
    (attempt : ℕ) (rows : List Scorecard) (s : Scorecard)
    → count_if (is_of attempt) (rows ++ s ∷ [])
      ≡ count_if (is_of attempt) rows + (if s.attempt == attempt then 1 else 0)
count-append_one attempt [] s = ground arith
count-append_one attempt (x ∷ rows) s = ground (arith, count-append_one attempt rows s)

count-none :
    (attempt : ℕ) (rows : List Scorecard)
    → any (is_of attempt) rows ≡ false
    → count_if (is_of attempt) rows ≡ 0
count-none attempt [] h = refl
count-none attempt (x ∷ rows) h = ground (arith, count-none attempt rows)

-- What a write does to the scorecards.
module _ (u : Unicode) (id : ℕ) (fresh : ℕ → ℕ) (g : Grading) (db : ReviewDb) where
  write-refused : {db' : ReviewDb} → write_scorecard u id fresh g db ≡ ok (db', none) → db' ≡ db
  unfolding write_scorecard
  write-refused h = ground arith

  write-scorecards :
      {db' : ReviewDb} {won : ℕ}
      → write_scorecard u id fresh g db ≡ ok (db', some won)
      → (is_graded_already g.attempt_id db ≡ false)
        × (won ≡ id)
        × ((s : Scorecard) × (db'.scorecards ≡ db.scorecards ++ s ∷ [])
            × (s.attempt ≡ g.attempt_id)
            × (s.id ≡ id))
  unfolding write_scorecard
  write-scorecards h =
      elim (Result-cases
        (validate_persistence_payload u g.dimensions g.moments g.takeaway g.grading_meta)) [
          | inr (e, bad) ↦ absurd (ground arith)
          | inl (t, passed) ↦ elim (Result-cases (weighted_overall g.dimensions)) [
            | inr (e, bad) ↦ absurd (ground arith)
            | inl (overall, mean) ↦ (
              ground arith,
              ground arith,
              (new_scorecard id overall g, ground arith, ground arith, ground arith),
            )
          ]
        ]

  -- What a write leaves of the attempts.
  pub write-attempts :
      {db' : ReviewDb} {won : Option ℕ}
      → write_scorecard u id fresh g db ≡ ok (db', won)
      → (db'.attempts ≡ db.attempts) ⊎ (db'.attempts ≡ mark_graded g.attempt_id db.attempts)
  unfolding write_scorecard
  write-attempts h =
      elim (Result-cases
        (validate_persistence_payload u g.dimensions g.moments g.takeaway g.grading_meta)) [
          | inr (e, bad) ↦ absurd (ground arith)
          | inl (t, passed) ↦ elim (Result-cases (weighted_overall g.dimensions)) [
            | inr (e, bad) ↦ absurd (ground arith)
            | inl (overall, mean) ↦ elim (Bool-cases (is_graded_already g.attempt_id db)) [
              | inl graded ↦ inl (ground arith)
              | inr first ↦ inr (ground arith)
            ]
          ]
        ]

  write-graded :
      {db' : ReviewDb} {result : Option ℕ}
      → is_graded_already g.attempt_id db ≡ true
      → write_scorecard u id fresh g db ≡ ok (db', result)
      → (db' ≡ db) × (result ≡ none)
  unfolding write_scorecard
  write-graded graded h = ground arith

  write-IsGraded :
      {db' : ReviewDb} {won : ℕ}
      → write_scorecard u id fresh g db ≡ ok (db', some won)
      → is_graded_already g.attempt_id db' ≡ true
  unfolding is_graded_already
  write-IsGraded h =
      let (s, rows, same, same_id') = (write-scorecards h).2 in
      ground (arith, any-append_one g.attempt_id db.scorecards s)

-- One grader's attempt to write.
pub record Write : Type 0 where
  pub id : ℕ
  pub fresh : ℕ → ℕ
  pub grading : Grading

-- The tables after it; a raise is rolled back.
unfoldable pub after_write : Unicode → Write → ReviewDb → ReviewDb
after_write u w db = elim (write_scorecard u w.id w.fresh w.grading db) [
  | ok (db', won) ↦ db'
  | err e ↦ db
]

unfoldable pub after_all : Unicode → List Write → ReviewDb → ReviewDb
after_all u [] db = db
after_all u (w ∷ ws) db = after_all u ws (after_write u w db)

-- What one write adds to the scorecards.
after_write-scorecards :
    (u : Unicode) (w : Write) (db : ReviewDb)
    → (after_write u w db ≡ db)
      ⊎ ((s : Scorecard) × ((after_write u w db).scorecards ≡ db.scorecards ++ s ∷ [])
          × (is_graded_already s.attempt db ≡ false))
unfolding after_write
after_write-scorecards u w db = elim (Result-cases (write_scorecard u w.id w.fresh w.grading db)) [
  | inr (e, bad) ↦ inl (ground arith)
  | inl ((db', none), done) ↦
      let same = write-refused u w.id w.fresh w.grading db done in inl (ground arith)
  | inl ((db', some won), done) ↦
      let (first, id, (s, rows, attempt, named)) =
        write-scorecards u w.id w.fresh w.grading db done in
      inr (s, ground arith, rw attempt first)
]

-- However often and by whom an attempt is graded, it has at most one scorecard: if it has at
-- most one before a sequence of writes, of any attempts, it has at most one after it.
pub scored_once :
    (u : Unicode) (attempt : ℕ) (ws : List Write) (db : ReviewDb)
    → count_if (is_of attempt) db.scorecards ≤ 1
    → count_if (is_of attempt) (after_all u ws db).scorecards ≤ 1
unfolding after_all is_graded_already
scored_once u attempt [] db h = h
scored_once u attempt (w ∷ ws) db h =
    scored_once u attempt ws (after_write u w db) (elim (after_write-scorecards u w db) [
      | inl same ↦ rw same h
      | inr (s, rows, first) ↦ elim (Bool-cases (s.attempt == attempt)) [
        | inl mine ↦
            let empty : count_if (is_of attempt) db.scorecards ≡ 0 =
              ground (arith, count-none attempt db.scorecards) in
            ground (arith, empty, count-append_one attempt db.scorecards s)
        | inr other ↦ ground (arith, count-append_one attempt db.scorecards s)
      ]
    ])

-- A scorecard stays.
after_all-graded :
    (u : Unicode) (attempt : ℕ) (ws : List Write) (db : ReviewDb)
    → is_graded_already attempt db ≡ true
    → is_graded_already attempt (after_all u ws db) ≡ true
unfolding after_all is_graded_already
after_all-graded u attempt [] db h = h
after_all-graded u attempt (w ∷ ws) db h =
    after_all-graded u attempt ws (after_write u w db) (elim (after_write-scorecards u w db) [
      | inl same ↦ rw same h
      | inr (s, rows, first) ↦ ground (arith, any-append_one attempt db.scorecards s)
    ])

-- Once a grader has won an attempt, every later grader of it that does not raise is told that
-- the attempt is graded, and changes nothing, whatever else was graded in between.
pub later_grader_loses :
    (u : Unicode) (first second : Write) (between : List Write) (db : ReviewDb)
    {db' db'' : ReviewDb} {won : ℕ} {result : Option ℕ}
    → write_scorecard u first.id first.fresh first.grading db ≡ ok (db', some won)
    → second.grading.attempt_id ≡ first.grading.attempt_id
    → write_scorecard u second.id second.fresh second.grading (after_all u between db')
      ≡ ok (db'', result)
    → (db'' ≡ after_all u between db') × (result ≡ none)
later_grader_loses u first second between db {db'} h same k =
    let here = write-IsGraded u first.id first.fresh first.grading db h in
    let kept = after_all-graded u first.grading.attempt_id between db' here in
    write-graded u second.id second.fresh second.grading (after_all u between db') (rw same kept) k
