-- ===== src/Drills.antt =====
-- src/bluelab/modules/drills/freeze.py: T-5, publish a drill and freeze its content. The hash of the
-- canonical JSON is a parameter. Locks make the transaction one step.
pub mod Freeze
mod Examples
use bluelab_backend_prod.Prelude.{
  ℕ, ◌+◌, ◌-◌, String, Bool, true, false, ◌&&◌, ◌||◌, not, Option, none, some, List, [], ◌∷◌, map,
  ◌==◌, leb, any, find, keep, sum, length, is_none, is_some, if◌then◌else◌, Result, ok, err, ◌>>=◌,
  ◌>>◌, raise_if, or_raise,
}
use bluelab_backend_prod.Prelude.Int.{ℤ, pos, negsuc}
use bluelab_backend_prod.Calls.Database.{eq_param}
use bluelab_backend_prod.Review.Attempts.{Value, RubricRow, rubric_rows}

pub data DrillStatus : Type 0 where
  draft published archived : DrillStatus

abbrev pub is_draft : DrillStatus → Bool
is_draft draft = true
is_draft _ = false

-- `draft_grounding`: the versions of its documents, and its facts.
pub record Grounding : Type 0 where
  pub documents : List (ℕ × ℕ)
  pub facts : Value

-- A `drill` row with its `drill_concealed` row and its rubric. The fields of the hash that no
-- condition reads are `headline`.
pub record Drill : Type 0 where
  pub id : ℕ
  pub org : ℕ
  pub team : ℕ
  pub author : ℕ
  pub self_authored : Bool
  pub status : DrillStatus
  pub scenario_succeeded : Bool
  pub rubric_succeeded : Bool
  pub headline : Value
  pub scenario : Option Value
  pub draft_grounding : Option Grounding
  pub answer_key : Option Grounding
  pub content_hash : Option String
  pub published_at : Option ℕ
  pub challenges : Value
  pub hidden_motives : Value
  pub rubric : List RubricRow

pub record ProductDocument : Type 0 where
  pub id : ℕ
  pub org : ℕ
  pub team : ℕ
  pub live_version : ℕ
  pub has_live_facts : Bool

pub record PublishRequest : Type 0 where
  pub drill_id : ℕ
  pub team_id : Option ℕ
  pub org_id : Option ℕ
  pub viewer_id : Option ℕ
  pub is_manager : Bool

pub data PublishProblem : Type 0 where
  not_found drill_not_draft generation_incomplete grounding_stale : PublishProblem
  weights_not_100 : ℤ → PublishProblem

-- What the content hash covers.
pub record HashPayload : Type 0 where
  pub headline : Value
  pub challenges : Value
  pub hidden_motives : Value
  pub scenario : Value
  pub rubric : List RubricRow
  pub answer_key : Grounding

-- 100 - total
unfoldable pub delta : ℕ → ℤ
delta total = if leb total 100 then pos (100 - total) else negsuc (total - 101)

-- The org, the team and the viewer of the query.
unfoldable pub scope_of : PublishRequest → List Drill → Result PublishProblem (ℕ × ℕ × Option ℕ)
scope_of q drills = elim q.team_id [
  | none ↦ or_raise (find (λ d. d.id == q.drill_id) drills) not_found >>= λ d.
      ok (d.org, d.team, elim q.viewer_id [ none ↦ some d.author | some who ↦ some who ])
  | some team ↦ elim q.org_id [
    | none ↦ or_raise (find (λ d. d.id == q.drill_id) drills) not_found >>= λ d.
        ok (d.org, d.team, elim q.viewer_id [ none ↦ some d.author | some who ↦ some who ])
    | some org ↦ ok (org, team, q.viewer_id)
  ]
]

-- the `where` clause of the drill's query
unfoldable pub is_selected : PublishRequest → ℕ → ℕ → Option ℕ → Drill → Bool
is_selected q org team viewer d =
    d.id == q.drill_id
    && d.org == org
    && d.team == team
    && (is_none viewer || eq_param viewer d.author || (q.is_manager && not d.self_authored))

-- order by d.id
unfoldable pub insert_document : ProductDocument → List ProductDocument → List ProductDocument
insert_document p [] = p ∷ []
insert_document p (x ∷ xs) =
    let rest = insert_document p xs in if leb p.id x.id then p ∷ x ∷ xs else x ∷ rest

unfoldable pub documents_by_id : List ProductDocument → List ProductDocument
unfolding insert_document
documents_by_id [] = []
documents_by_id (p ∷ ps) = insert_document p (documents_by_id ps)

unfoldable pub current_vector : ℕ → ℕ → List ProductDocument → List (ℕ × ℕ)
unfolding documents_by_id
current_vector org team documents =
    map (λ p. (p.id, p.live_version))
      (documents_by_id (keep (λ p. p.org == org && p.team == team && p.has_live_facts) documents))

-- current_vector == captured_vector
abbrev pub same_vector : List (ℕ × ℕ) → List (ℕ × ℕ) → Bool
same_vector [] [] = true
same_vector [] (y ∷ ys) = false
same_vector (x ∷ xs) [] = false
same_vector (x ∷ xs) (y ∷ ys) = x.0 == y.0 && x.1 == y.1 && same_vector xs ys

-- the update of the rows where id=:drill and status='draft'
unfoldable pub freeze : ℕ → ℕ → String → List Drill → List Drill
freeze now drill hash [] = []
freeze now drill hash (d ∷ ds) =
    (if d.id == drill && is_draft d.status
      then record d {
        status = published;
        published_at = some now;
        answer_key = d.draft_grounding;
        draft_grounding = none;
        content_hash = some hash;
      }
      else d)
    ∷ freeze now drill hash ds

-- The gates on a draft, and the payload of its hash. The drill is in the organisation and the
-- team of the query.
unfoldable pub check_draft : List ProductDocument → Drill → Result PublishProblem HashPayload
unfolding delta current_vector
check_draft documents d = do
  raise_if (not (is_draft d.status)) drill_not_draft
  let dimensions = rubric_rows d.rubric
  let total = sum (map RubricRow.weight dimensions)
  raise_if (length dimensions == 0) generation_incomplete
  raise_if (not (total == 100)) (weights_not_100 (delta total))
  raise_if (not (d.scenario_succeeded && d.rubric_succeeded)) generation_incomplete
  scenario ← or_raise d.scenario generation_incomplete
  grounding ← or_raise d.draft_grounding generation_incomplete
  raise_if (not (same_vector (current_vector d.org d.team documents) grounding.documents))
      grounding_stale
  ok (record {
    headline = d.headline;
    challenges = d.challenges;
    hidden_motives = d.hidden_motives;
    scenario = scenario;
    rubric = dimensions;
    answer_key = grounding;
  })

unfoldable pub publish_drill :
    (HashPayload → String)
    → ℕ
    → PublishRequest
    → List ProductDocument
    → List Drill
    → Result PublishProblem (List Drill)
unfolding scope_of is_selected check_draft freeze
publish_drill content_hash now q documents drills = do
  (org, team, viewer) ← scope_of q drills
  d ← or_raise (find (is_selected q org team viewer) drills) not_found
  payload ← check_draft documents d
  raise_if (not (any (λ x. x.id == q.drill_id && is_draft x.status) drills)) drill_not_draft
  ok (freeze now q.drill_id (content_hash payload) drills)
