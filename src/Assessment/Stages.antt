-- ===== src/Assessment/Stages.antt =====
-- src/bluelab/modules/assessment/service.py and src/bluelab/calls/admission.py: the stage that a
-- candidate sees as the next one is the stage that admission takes.
use bluelab_backend_prod.Prelude.{
  ℕ, ◌≡◌, refl, subst, Bool, true, false, ◌&&◌, Option, none, some, List, [], ◌∷◌, map, ◌==◌, ltb,
  any, find, keep, count_if, elem, distinct, if◌then◌else◌, All, ok, arith, Bool-cases,
  Option-cases, inl, inr, ==_refl,
}
use bluelab_backend_prod.Prelude.Members.{All-and, All-keep, All-keep_test, find-some}
use bluelab_backend_prod.Calls.Database.{
  Db, Stage, Attempt, is_id, is_done, plan, stage_done, stage_interrupted,
}
use bluelab_backend_prod.Calls.Admission.{is_open, next_stage, requested, admit_candidate_stage}
use bluelab_backend_prod.Calls.Admission.Stages.{first_by_ord-All}
use bluelab_backend_prod.Assessment.{
  StageView, Portal, is_next, completed_count, interrupted_count, by_ord, status_of, stage_data,
  stage_views, startable_stage, assessment_view,
}
use bluelab_backend_prod.Assessment.Order.{find-by_ord}

count-any : (p : Attempt → Bool) (rows : List Attempt) → ltb 0 (count_if p rows) ≡ any p rows
count-any p [] = refl
count-any p (a ∷ rows) = ground (arith, count-any p rows)

abbrev pub stage_of : Option StageView → Option Stage
stage_of none = none
stage_of (some v) = some v.stage

module _ (db : Db) (cand : ℕ) where
  status-is_open : (st : Stage) → is_next (status_of db cand false st) ≡ is_open db cand st
  unfolding status_of is_open completed_count interrupted_count stage_done stage_interrupted
  status-is_open st =
      let done : Attempt → Bool =
        λ a. is_id cand a.candidate && is_id st.id a.stage && is_done a.status in
      ground (arith, count-any done db.attempts)

  find-stage_data :
      (sts : List Stage)
      → stage_of (find (λ v. is_next v.status) (stage_data db cand false sts))
        ≡ find (is_open db cand) sts
  unfolding stage_data
  find-stage_data [] = refl
  find-stage_data (st ∷ sts) = elim (Bool-cases (is_open db cand st)) [
    | inl going ↦ ground (arith, status-is_open st)
    | inr shut ↦ ground (arith, status-is_open st, find-stage_data sts)
  ]

  -- The stage that the assessment view marks as the next one, if any, is exactly the stage that the
  -- admission transaction computes by its own query, and the view marks one if and only if the
  -- query finds one.
  pub offered_is_next :
      stage_of (find (λ v. is_next v.status) (stage_views db cand)) ≡ next_stage db cand
  unfolding stage_views next_stage
  offered_is_next = ground (
    arith,
    find-stage_data (by_ord (plan db (some cand))),
    find-by_ord (is_open db cand) (plan db (some cand)),
  )

  find-All {κ} :
      (P : StageView → Type κ) (q : StageView → Bool) (views : List StageView) (v : StageView)
      → All P views
      → find q views ≡ some v
      → P v
  find-All P q [] v h e = cc
  find-All P q (x ∷ views) v h e = elim (Bool-cases (q x)) [
    | inl here ↦ subst P (ground arith) h.0
    | inr later ↦ find-All P q views v h.1 (ground arith)
  ]

  stage_data-after :
      (sts : List Stage) → All (λ v. is_next v.status ≡ false) (stage_data db cand true sts)
  unfolding stage_data status_of
  stage_data-after [] = tt
  stage_data-after (st ∷ sts) = (ground arith, ground (arith, stage_data-after sts))

  stage_data-restart :
      (found : Bool) (sts : List Stage)
      → All
          (λ v. v.restart_available ≡ (stage_interrupted db cand v.stage.id == 1))
          (stage_data db cand found sts)
  unfolding stage_data interrupted_count stage_interrupted
  stage_data-restart found [] = tt
  stage_data-restart found (st ∷ sts) =
      (refl, stage_data-restart (if is_next (status_of db cand found st) then true else found) sts)

  -- A row that is marked as the next one is the first that is.
  only_next :
      (q : StageView → Bool) (sts : List Stage) (v : StageView)
      → find q (stage_data db cand false sts) ≡ some v
      → is_next v.status ≡ true
      → find (λ x. is_next x.status) (stage_data db cand false sts) ≡ some v
  unfolding stage_data
  only_next q [] v e h = cc
  only_next q (st ∷ sts) v e h =
      let head : StageView = record {
        stage = st;
        status = status_of db cand false st;
        restart_available = interrupted_count db cand st.id == 1;
      } in
      elim (Bool-cases (is_next head.status)) [
        | inl first ↦ elim (Bool-cases (q head)) [
          | inl here ↦ ground arith
          | inr later ↦
              let never =
                find-All (λ x. is_next x.status ≡ false) q (stage_data db cand true sts) v
                  (stage_data-after sts) (ground arith) in
              cc
        ]
        | inr other ↦ elim (Bool-cases (q head)) [
          | inl here ↦ ground arith
          | inr later ↦ ground (arith, only_next q sts v)
        ]
      ]

-- Rows with distinct ids are found by their ids.
id_unused :
    (n : ℕ) (sts : List Stage)
    → elem n (map Stage.id sts) ≡ false
    → All (λ st. (st.id == n) ≡ false) sts
id_unused n [] h = tt
id_unused n (st ∷ sts) h = (ground arith, id_unused n sts (ground arith))

found_by_id :
    (sts : List Stage)
    → distinct (map Stage.id sts) ≡ true
    → All (λ st. find (λ x. st.id == x.id) sts ≡ some st) sts
found_by_id [] h = tt
found_by_id (st ∷ sts) h = (
  ground (arith, ==_refl st.id),
  All-and (λ x. (x.id == st.id) ≡ false) (λ x. find (λ y. x.id == y.id) sts ≡ some x)
      (λ x. find (λ y. x.id == y.id) (st ∷ sts) ≡ some x) sts (λ x other found. rw other found)
      (id_unused st.id sts (ground arith)) (found_by_id sts (ground arith)),
)

module _ (db : Db) (cand : ℕ) where
  -- The next stage is open, and the request that names it finds it.
  next_stage-open :
      (best : Stage)
      → distinct (map Stage.id (plan db (some cand))) ≡ true
      → next_stage db cand ≡ some best
      → (is_open db cand best ≡ true) × (requested db cand (some best.id) ≡ some best)
  unfolding next_stage requested
  next_stage-open best unique e =
      let sts = plan db (some cand) in
      let found : Stage → Type 0 = λ st. find (λ x. st.id == x.id) sts ≡ some st in
      (
        first_by_ord-All (λ st. is_open db cand st ≡ true) (keep (is_open db cand) sts)
            {best = best} (All-keep_test (is_open db cand) sts) e,
        first_by_ord-All found (keep (is_open db cand) sts) {best = best}
            (All-keep found (is_open db cand) sts (found_by_id sts unique)) e,
      )

  -- Admission takes the next stage.
  next_stage-admitted :
      (best : Stage)
      → distinct (map Stage.id (plan db (some cand))) ≡ true
      → next_stage db cand ≡ some best
      → admit_candidate_stage db cand (some best.id) ≡ ok (stage_interrupted db cand best.id == 1)
  unfolding admit_candidate_stage is_open
  next_stage-admitted best unique e =
      let (going, asked) = next_stage-open best unique e in ground (arith, ==_refl best.id)

-- What the checks of a brief have found when they pass.
startable_stage-found :
    (p : Portal) (cand stage : ℕ) {v : StageView}
    → startable_stage p cand stage ≡ ok v
    → (find (λ x. x.stage.id == stage) (stage_views p.db cand) ≡ some v) × (is_next v.status ≡ true)
unfolding startable_stage assessment_view
startable_stage-found p cand stage {v} e =
    elim (Option-cases (find (λ c. c.id == cand) p.db.candidates)) [
      | inl nobody ↦ ground arith
      | inr (c, known) ↦
          elim (Option-cases (find (λ x. x.stage.id == stage) (stage_views p.db cand))) [
            | inl nothing ↦ ground arith
            | inr (x, found) ↦
                let same : x ≡ v = ground arith in
                (ground arith, subst (λ y. is_next y.status ≡ true) same (ground arith))
          ]
    ]

-- A stage whose brief the candidate may open is admitted by the stage check of the call's
-- admission, and that reports a restart exactly when the view announced one, provided that the
-- stages of the position have distinct ids.
pub startable_is_admitted :
    (p : Portal) (cand stage : ℕ) {v : StageView}
    → distinct (map Stage.id (plan p.db (some cand))) ≡ true
    → startable_stage p cand stage ≡ ok v
    → admit_candidate_stage p.db cand (some stage) ≡ ok v.restart_available
unfolding stage_views
startable_is_admitted p cand stage {v} unique e =
    let (found, first) = startable_stage-found p cand stage {v = v} e in
    let sts : List Stage = by_ord (plan p.db (some cand)) in
    let here = only_next p.db cand (λ x. x.stage.id == stage) sts v found first in
    let next : next_stage p.db cand ≡ some v.stage = ground (arith, offered_is_next p.db cand) in
    let named : (v.stage.id == stage) ≡ true =
      find-some (λ x. x.stage.id == stage) (stage_views p.db cand) {a = v} found in
    let same : v.stage.id ≡ stage = ground arith in
    let restart =
      find-All p.db cand (λ x. x.restart_available ≡ (stage_interrupted p.db cand x.stage.id == 1))
        (λ x. x.stage.id == stage) (stage_views p.db cand) v
        (stage_data-restart p.db cand false sts) found in
    ground (arith, next_stage-admitted p.db cand v.stage unique next)
