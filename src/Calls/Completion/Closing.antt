-- ===== src/Calls/Completion/Closing.antt =====
-- src/bluelab/calls/completion.py: a candidate's plan closes once, with its terminal effects.
use bluelab_backend_prod.Prelude.{
  ℕ, ◌≡◌, refl, ◌∙◌, Bool, true, false, Option, some, List, [], ◌∷◌, any, is_none, arith,
  Bool-cases, inl, inr,
}
use bluelab_backend_prod.Calls.Database.{
  Db, Candidate, plan, position_of, stage_done, stage_interrupted,
}
use bluelab_backend_prod.Calls.Completion.{
  advance_candidate_if_closed, closes, is_closed, complete_candidates,
}

module _ (db : Db) (cand now : ℕ) where
  -- the database after the update, by the candidates alone
  abbrev stamped : Db
  stamped = record db { candidates = complete_candidates (closes db cand) now db.candidates }

  find-complete_candidates :
      (who : Option ℕ) (test : Candidate → Bool) (cs : List Candidate)
      → position_of (record db { candidates = complete_candidates test now cs }) who
        ≡ position_of (record db { candidates = cs }) who
  unfolding position_of complete_candidates
  find-complete_candidates who test [] = refl
  find-complete_candidates who test (c ∷ cs) = ground (arith, find-complete_candidates who test cs)

  plan-stamped : plan stamped (some cand) ≡ plan db (some cand)
  unfolding plan
  plan-stamped = rw (find-complete_candidates (some cand) (closes db cand) db.candidates)

  closes-stamped : (c : Candidate) → closes stamped cand c ≡ closes db cand c
  unfolding closes stage_done stage_interrupted
  closes-stamped c = rw plan-stamped

  completed-closes :
      (c : Candidate) → is_none c.completed_at ≡ false → closes stamped cand c ≡ false
  unfolding closes
  completed-closes c h = ground arith

  closed_already :
      (cs : List Candidate)
      → any (closes stamped cand) (complete_candidates (closes db cand) now cs) ≡ false
  unfolding complete_candidates
  closed_already [] = refl
  closed_already (c ∷ cs) = elim (Bool-cases (closes db cand c)) [
    | inl shut ↦
        ground
          (arith, completed-closes (record c { completed_at = some now }) refl, closed_already cs)
    | inr going ↦ ground (arith, closes-stamped c, closed_already cs)
  ]

  -- What closing a plan leaves: the candidates stamped, and the tables of the plan as they were.
  advance_tables :
      (email org team : ℕ)
      → any (closes db cand) db.candidates ≡ true
      → let db' = (advance_candidate_if_closed now email cand org team db).0 in
        (db'.candidates ≡ stamped.candidates)
        × (db'.stages ≡ db.stages)
        × (db'.attempts ≡ db.attempts)
  unfolding advance_candidate_if_closed
  advance_tables email org team h = ground arith

-- Two databases that agree on candidates, stages and attempts close the same candidates.
closes_of :
    (db db' : Db) (cand : ℕ)
    → db.candidates ≡ db'.candidates
    → db.stages ≡ db'.stages
    → db.attempts ≡ db'.attempts
    → any (closes db cand) db.candidates ≡ any (closes db' cand) db'.candidates
unfolding closes is_closed stage_done stage_interrupted plan position_of
closes_of db db' cand c s a = rw (c, s, a)

-- A database that closes nothing is left alone.
advance-none :
    (now email cand org team : ℕ) (db : Db)
    → any (closes db cand) db.candidates ≡ false
    → advance_candidate_if_closed now email cand org team db ≡ (db, false)
unfolding advance_candidate_if_closed
advance-none now email cand org team db h = ground arith

-- The plan of a candidate is closed at most once: after a call that ran, whether it closed the
-- plan or not, a further call with any clock and any e-mail id changes nothing.
pub advance_candidate_once :
    (now email cand org team later email' : ℕ) (db : Db)
    → let db' = (advance_candidate_if_closed now email cand org team db).0 in
      advance_candidate_if_closed later email' cand org team db' ≡ (db', false)
advance_candidate_once now email cand org team later email' db =
    elim (Bool-cases (any (closes db cand) db.candidates)) [
      | inl shut ↦
          let db' : Db = (advance_candidate_if_closed now email cand org team db).0 in
          let t = advance_tables db cand now email org team shut in
          advance-none later email' cand org team db' (
            closes_of db' (stamped db cand now) cand t.0 t.1 t.2
            ∙ closed_already db cand now db.candidates)
      | inr going ↦
          rw (advance-none now email cand org team db going)
            (advance-none later email' cand org team db going)
    ]
