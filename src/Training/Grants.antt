-- ===== src/Training/Grants.antt =====
-- src/bluelab/modules/training/assignment.py: what a replacement of an assignment leaves.
use bluelab_backend_prod.Prelude.{
  ℕ, ◌≤◌, ◌≡◌, refl, sym, ◌∙◌, Bool, true, ◌&&◌, ◌||◌, not, none, some, List, [], ◌∷◌, ◌++◌, ◌==◌,
  all, elem, find, keep, count_if, if◌then◌else◌, ok, arith, Bool-cases, Option-cases, Result-cases,
  inl, inr, ==_refl,
}
use bluelab_backend_prod.Calls.Database.{Assignment}
use bluelab_backend_prod.Training.{
  Tables, TeamDrill, PutRequest, AssignmentView, manageable_drill, unique_recipient_ids,
  replace_recipients, upsert_assignment, update_assignment, assignment_view, get_assignment,
  put_assignment,
}
use bluelab_backend_prod.Training.Recipients.{is_grant, is_fresh, count-replace}

find-append :
    (drill : ℕ) (rows : List Assignment) (new : Assignment)
    → find (λ a. a.drill == drill) rows ≡ none
    → new.drill ≡ drill
    → find (λ a. a.drill == drill) (rows ++ new ∷ []) ≡ some new
find-append drill [] new h same = rw same (ground (arith, ==_refl drill))
find-append drill (a ∷ rows) new h same = ground (arith, find-append drill rows new)

find-update :
    (drill allowed : ℕ) (rows : List Assignment) {a : Assignment}
    → find (λ a. a.drill == drill) rows ≡ some a
    → find (λ a. a.drill == drill) (update_assignment drill allowed rows)
      ≡ some (record a { attempts_allowed = allowed })
unfolding update_assignment
find-update drill allowed [] {a} h = cc
find-update drill allowed (x ∷ rows) {a} h = elim (Bool-cases (x.drill == drill)) [
  | inl here ↦ (let same : x ≡ a = ground arith in rw (here, here, same) refl)
  | inr later ↦ ground (arith, find-update drill allowed rows {a = a})
]

upsert-found :
    (new : Assignment) (rows : List Assignment)
    → let (rows', a) = upsert_assignment new rows in
      (find (λ x. x.drill == new.drill) rows' ≡ some a)
      × (a.attempts_allowed ≡ new.attempts_allowed)
unfolding upsert_assignment
upsert-found new rows = elim (Option-cases (find (λ a. a.drill == new.drill) rows)) [
  | inl first ↦ rw (upsert_assignment, first) (find-append new.drill rows new first refl, refl)
  | inr (a, there) ↦
      rw (upsert_assignment, there)
        (find-update new.drill new.attempts_allowed rows {a = a} there, refl)
]

abbrev pub is_on : ℕ → Assignment → Bool
is_on drill a = a.drill == drill

count-append :
    (drill : ℕ) (rows : List Assignment) (new : Assignment)
    → find (λ a. a.drill == drill) rows ≡ none
    → new.drill ≡ drill
    → count_if (is_on drill) (rows ++ new ∷ []) ≡ 1
count-append drill [] new h same = rw same (ground (arith, ==_refl drill))
count-append drill (a ∷ rows) new h same = ground (arith, count-append drill rows new)

count-update :
    (drill allowed : ℕ) (rows : List Assignment)
    → count_if (is_on drill) (update_assignment drill allowed rows) ≡ count_if (is_on drill) rows
unfolding update_assignment
count-update drill allowed [] = refl
count-update drill allowed (a ∷ rows) = ground (arith, count-update drill allowed rows)

count-found :
    (drill : ℕ) (rows : List Assignment) {a : Assignment}
    → find (λ a. a.drill == drill) rows ≡ some a
    → 1 ≤ count_if (is_on drill) rows
count-found drill [] h = cc
count-found drill (x ∷ rows) {a} h = ground (arith, count-found drill rows {a = a})

upsert-single :
    (new : Assignment) (rows : List Assignment)
    → count_if (is_on new.drill) rows ≤ 1
    → count_if (is_on new.drill) (upsert_assignment new rows).0 ≡ 1
unfolding upsert_assignment
upsert-single new rows few = elim (Option-cases (find (λ a. a.drill == new.drill) rows)) [
  | inl first ↦ rw (upsert_assignment, first) (count-append new.drill rows new first refl)
  | inr (a, there) ↦
      let same = count-update new.drill new.attempts_allowed rows in
      let one = count-found new.drill rows {a = a} there in
      rw (upsert_assignment, there, same) (omega arith)
]

module _ (now id : ℕ) (q : PutRequest) (t : Tables) where
  abbrev asked : Assignment
  asked = record {
    id = id;
    org = q.org_id;
    team = q.team_id;
    drill = q.drill_id;
    attempts_allowed = q.attempts_allowed;
  }

  abbrev stored : Assignment
  stored = (upsert_assignment asked t.assignments).1

  abbrev written : Tables
  written = record t {
    assignments = (upsert_assignment asked t.assignments).0;
    details =
        record { assignment = stored.id; due_date = q.due_date; updated_at = now }
        ∷ keep (λ d. not (d.assignment == stored.id)) t.details;
    recipients =
        replace_recipients stored q.org_id q.team_id (unique_recipient_ids q.recipient_account_ids)
          t.recipients;
  }

  put_assignment-ok :
      {t' : Tables} {view : AssignmentView}
      → put_assignment now id q t ≡ ok (t', view)
      → ((d : TeamDrill) × (manageable_drill q.org_id q.team_id q.drill_id t ≡ ok d))
        × (written ≡ t')
        × (assignment_view stored written ≡ view)
  unfolding put_assignment
  put_assignment-ok {t'} {view} e =
      elim (Result-cases (manageable_drill q.org_id q.team_id q.drill_id t)) [
        | inr (bad, failed) ↦ absurd (ground arith)
        | inl (d, found) ↦ ((d, found), ground arith, ground arith)
      ]

  -- Where the drill had at most one assignment, a replacement that succeeds leaves exactly one assignment of
  -- the drill, with the allowance that was asked for, and under it exactly one grant for each rep of the request, named once or more often, with
  -- no attempt used, and none for anybody else, whatever was granted and used before.
  pub put_assignment_grants :
      (who : ℕ) {t' : Tables} {view : AssignmentView}
      → count_if (is_on q.drill_id) t.assignments ≤ 1
      → put_assignment now id q t ≡ ok (t', view)
      → (count_if (is_on q.drill_id) t'.assignments ≡ 1)
        × (a : Assignment) × (find (λ x. x.drill == q.drill_id) t'.assignments ≡ some a)
        × (a.attempts_allowed ≡ q.attempts_allowed)
        × (count_if (is_grant a.id who) t'.recipients
            ≡ (if elem who q.recipient_account_ids then 1 else 0))
        × (count_if (is_fresh a.id who) t'.recipients
            ≡ (if elem who q.recipient_account_ids then 1 else 0))
  put_assignment_grants who {t'} {view} few e =
      let (drill, same, seen) = put_assignment-ok {t' = t'} {view = view} e in
      let (found, allowed) = upsert-found asked t.assignments in
      let (grants, fresh) =
        count-replace stored q.org_id q.team_id who q.recipient_account_ids t.recipients in
      rw (sym same) (upsert-single asked t.assignments few, stored, found, allowed, grants, fresh)

-- Whether each assignment of the drill is one of the given team.
abbrev pub is_of_team : ℕ → ℕ → ℕ → Assignment → Bool
is_of_team org team drill a = not (a.drill == drill) || (a.org == org && a.team == team)

find-of_team :
    (org team drill : ℕ) (rows : List Assignment)
    → all (is_of_team org team drill) rows ≡ true
    → find (λ a. a.drill == drill && a.org == org && a.team == team) rows
      ≡ find (λ a. a.drill == drill) rows
find-of_team org team drill [] h = refl
find-of_team org team drill (a ∷ rows) h = ground (arith, find-of_team org team drill rows)

update-of_team :
    (org team drill allowed : ℕ) (rows : List Assignment)
    → all (is_of_team org team drill) (update_assignment drill allowed rows)
      ≡ all (is_of_team org team drill) rows
unfolding update_assignment
update-of_team org team drill allowed [] = refl
update-of_team org team drill allowed (a ∷ rows) =
    ground (arith, update-of_team org team drill allowed rows)

append-of_team :
    (org team drill : ℕ) (rows : List Assignment) (new : Assignment)
    → is_of_team org team drill new ≡ true
    → all (is_of_team org team drill) rows ≡ true
    → all (is_of_team org team drill) (rows ++ new ∷ []) ≡ true
append-of_team org team drill [] new h k = ground arith
append-of_team org team drill (a ∷ rows) new h k =
    ground (arith, append-of_team org team drill rows new)

upsert-of_team :
    (new : Assignment) (rows : List Assignment)
    → all (is_of_team new.org new.team new.drill) rows ≡ true
    → all (is_of_team new.org new.team new.drill) (upsert_assignment new rows).0 ≡ true
unfolding upsert_assignment
upsert-of_team new rows h = elim (Option-cases (find (λ a. a.drill == new.drill) rows)) [
  | inl first ↦
      rw (upsert_assignment, first)
        (append-of_team new.org new.team new.drill rows new
          (ground (arith, ==_refl new.org, ==_refl new.team)) h)
  | inr (a, there) ↦
      rw (upsert_assignment, there)
        (ground (arith, update-of_team new.org new.team new.drill new.attempts_allowed rows))
]

get_assignment-found :
    (org team drill : ℕ) (t : Tables) {d : TeamDrill} {a : Assignment}
    → manageable_drill org team drill t ≡ ok d
    → find (λ x. x.drill == drill && x.org == org && x.team == team) t.assignments ≡ some a
    → get_assignment org team drill t ≡ ok (some (assignment_view a t))
unfolding get_assignment
get_assignment-found org team drill t {d} {a} h found = ground arith

-- Reading back: after a replacement that succeeds, the editor of the same team reads exactly the
-- view that the replacement returned, provided that the stored assignments of the drill are of
-- that team.
pub get_assignment-put_assignment :
    (now id : ℕ) (q : PutRequest) (t : Tables) {t' : Tables} {view : AssignmentView}
    → all (is_of_team q.org_id q.team_id q.drill_id) t.assignments ≡ true
    → put_assignment now id q t ≡ ok (t', view)
    → get_assignment q.org_id q.team_id q.drill_id t' ≡ ok (some view)
unfolding manageable_drill
get_assignment-put_assignment now id q t {t'} {view} scoped e =
    let ((d, drill), same, seen) = put_assignment-ok now id q t {t' = t'} {view = view} e in
    let new = asked now id q t in
    let (found, allowed) = upsert-found new t.assignments in
    let read =
      find-of_team q.org_id q.team_id q.drill_id (upsert_assignment new t.assignments).0
        (upsert-of_team new t.assignments scoped) in
    let again : manageable_drill q.org_id q.team_id q.drill_id (written now id q t) ≡ ok d =
      drill in
    rw (sym same, sym seen)
      (get_assignment-found q.org_id q.team_id q.drill_id (written now id q t) again (read ∙ found))
