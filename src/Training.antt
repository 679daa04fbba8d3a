-- ===== src/Training.antt =====
-- src/bluelab/modules/training/assignment.py: the assignment of a drill to the reps of a team. The
-- row lock on the drill makes each call one step. When a recipient was granted is left out; the
-- due date and the time of the update of an assignment are its details.
pub mod Grants
pub mod Recipients
mod Examples
use bluelab_backend_prod.Prelude.{
  ℕ, Bool, true, false, ◌&&◌, not, Option, none, some, List, [], ◌∷◌, ◌++◌, map, ◌==◌, leb, any,
  elem, find, keep, count_if, length, if◌then◌else◌, Result, ok, err, ◌>>=◌, ◌>>◌, raise_if,
  or_raise,
}
use bluelab_backend_prod.Calls.Database.{Assignment, Recipient}
use bluelab_backend_prod.Drills.{DrillStatus, published}

-- The columns of a drill and of an account that the statements read.
pub record TeamDrill : Type 0 where
  pub id : ℕ
  pub org : ℕ
  pub team : ℕ
  pub self_authored : Bool
  pub status : DrillStatus

pub record Account : Type 0 where
  pub id : ℕ
  pub org : ℕ
  pub team : ℕ
  pub is_rep : Bool

pub record Detail : Type 0 where
  pub assignment : ℕ
  pub due_date : ℕ
  pub updated_at : ℕ

pub record Tables : Type 0 where
  pub drills : List TeamDrill
  pub accounts : List Account
  pub assignments : List Assignment
  pub details : List Detail
  pub recipients : List Recipient

pub data AssignmentProblem : Type 0 where
  not_found drill_not_startable : AssignmentProblem

pub record AssignmentView : Type 0 where
  pub drill_id : ℕ
  pub attempts_allowed : ℕ
  pub detail : Option Detail
  pub recipients : List (ℕ × ℕ)

abbrev pub is_published : DrillStatus → Bool
is_published published = true
is_published _ = false

-- `_unique_recipient_ids`: list(dict.fromkeys(recipient_ids))
unfoldable pub without : ℕ → List ℕ → List ℕ
without x [] = []
without x (y ∷ ys) = let rest = without x ys in if x == y then rest else y ∷ rest

unfoldable pub unique_recipient_ids : List ℕ → List ℕ
unfolding without
unique_recipient_ids [] = []
unique_recipient_ids (x ∷ xs) = x ∷ without x (unique_recipient_ids xs)

-- `_LOCK_MANAGEABLE_DRILL` and the checks of its row
unfoldable pub manageable_drill : ℕ → ℕ → ℕ → Tables → Result AssignmentProblem TeamDrill
manageable_drill org team drill t = do
  d ←
      or_raise
        (find (λ d. d.id == drill && d.org == org && d.team == team && not d.self_authored)
          t.drills)
        not_found
  raise_if (not (is_published d.status)) drill_not_startable
  ok d

-- `_TEAM_REP_COUNT`
unfoldable pub team_rep_count : ℕ → ℕ → List ℕ → List Account → ℕ
team_rep_count org team ids accounts =
    count_if (λ a. elem a.id ids && a.org == org && a.team == team && a.is_rep) accounts

-- `_RECIPIENTS`: order by rep_account_id
unfoldable pub insert_recipient : ℕ × ℕ → List (ℕ × ℕ) → List (ℕ × ℕ)
insert_recipient r [] = r ∷ []
insert_recipient r (x ∷ xs) =
    let rest = insert_recipient r xs in if leb r.0 x.0 then r ∷ x ∷ xs else x ∷ rest

unfoldable pub by_account : List Recipient → List (ℕ × ℕ)
unfolding insert_recipient
by_account [] = []
by_account (r ∷ rs) = insert_recipient (r.rep, r.attempts_used) (by_account rs)

-- `_assignment_view`, with the recipients read for it
unfoldable pub assignment_view : Assignment → Tables → AssignmentView
unfolding by_account
assignment_view a t = record {
  drill_id = a.drill;
  attempts_allowed = a.attempts_allowed;
  detail = find (λ d. d.assignment == a.id) t.details;
  recipients = by_account (keep (λ r. r.assignment == a.id) t.recipients);
}

-- `get_assignment`
unfoldable pub get_assignment :
    ℕ → ℕ → ℕ → Tables → Result AssignmentProblem (Option AssignmentView)
unfolding manageable_drill assignment_view
get_assignment org team drill t = manageable_drill org team drill t >>= λ d.
    ok (elim (find (λ a. a.drill == drill && a.org == org && a.team == team) t.assignments) [
      | none ↦ none
      | some a ↦ some (assignment_view a t)
    ])

-- `_UPSERT_ASSIGNMENT`: on conflict (drill_id) do update
unfoldable pub update_assignment : ℕ → ℕ → List Assignment → List Assignment
update_assignment drill allowed [] = []
update_assignment drill allowed (a ∷ rest) =
    (if a.drill == drill then record a { attempts_allowed = allowed } else a)
    ∷ update_assignment drill allowed rest

unfoldable pub upsert_assignment : Assignment → List Assignment → List Assignment × Assignment
unfolding update_assignment
upsert_assignment new rows = elim (find (λ a. a.drill == new.drill) rows) [
  | none ↦ (rows ++ new ∷ [], new)
  | some a ↦ (
    update_assignment new.drill new.attempts_allowed rows,
    record a { attempts_allowed = new.attempts_allowed },
  )
]

-- `_INSERT_RECIPIENTS`, after `_DELETE_RECIPIENTS`
unfoldable pub new_recipients : Assignment → ℕ → ℕ → List ℕ → List Recipient
new_recipients a org team [] = []
new_recipients a org team (who ∷ ids) =
    record { assignment = a.id; org = org; team = team; rep = who; attempts_used = 0 }
    ∷ new_recipients a org team ids

unfoldable pub replace_recipients : Assignment → ℕ → ℕ → List ℕ → List Recipient → List Recipient
unfolding new_recipients
replace_recipients a org team ids rows =
    keep (λ r. not (r.assignment == a.id)) rows ++ new_recipients a org team ids

pub record PutRequest : Type 0 where
  pub org_id : ℕ
  pub team_id : ℕ
  pub drill_id : ℕ
  pub recipient_account_ids : List ℕ
  pub due_date : ℕ
  pub attempts_allowed : ℕ

-- `put_assignment`; `id` is the fresh `new_id()`
unfoldable pub put_assignment :
    ℕ → ℕ → PutRequest → Tables → Result AssignmentProblem (Tables × AssignmentView)
unfolding unique_recipient_ids manageable_drill team_rep_count upsert_assignment replace_recipients
put_assignment now id q t = do
  let ids = unique_recipient_ids q.recipient_account_ids
  drill ← manageable_drill q.org_id q.team_id q.drill_id t
  raise_if (not (team_rep_count q.org_id q.team_id ids t.accounts == length ids)) not_found
  let (rows, a) =
      upsert_assignment
        (record {
          id = id;
          org = q.org_id;
          team = q.team_id;
          drill = q.drill_id;
          attempts_allowed = q.attempts_allowed;
        })
        t.assignments
  let written : Tables = record t {
    assignments = rows;
    details =
        record { assignment = a.id; due_date = q.due_date; updated_at = now }
        ∷ keep (λ d. not (d.assignment == a.id)) t.details;
    recipients = replace_recipients a q.org_id q.team_id ids t.recipients;
  }
  ok (written, assignment_view a written)
