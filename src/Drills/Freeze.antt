-- ===== src/Drills/Freeze.antt =====
-- src/bluelab/modules/drills/freeze.py: a drill is published once, with the facts that are live.
use bluelab_backend_prod.Prelude.{
  ℕ, ◌≡◌, refl, String, true, false, ◌&&◌, Option, some, List, [], ◌∷◌, map, ◌==◌, any, find, sum,
  length, ok, err, arith, Option-cases, Result-cases, inl, inr,
}
use bluelab_backend_prod.Review.Attempts.{RubricRow, rubric_rows}
use bluelab_backend_prod.Drills.{
  Drill, HashPayload, ProductDocument, PublishRequest, PublishProblem, is_draft, scope_of,
  is_selected, current_vector, same_vector, check_draft, freeze, publish_drill, drill_not_draft,
  not_found,
}

-- What a draft that passes the gates has.
pub record IsPublishable (documents : List ProductDocument) (d : Drill) (payload : HashPayload)
    : Type 0 where
  pub is_a_draft : is_draft d.status ≡ true
  pub has_rubric : (length (rubric_rows d.rubric) == 0) ≡ false
  pub weights : sum (map RubricRow.weight (rubric_rows d.rubric)) ≡ 100
  pub has_scenario : d.scenario ≡ some payload.scenario
  pub grounded : d.draft_grounding ≡ some payload.answer_key
  pub live : same_vector (current_vector d.org d.team documents) payload.answer_key.documents ≡ true

check_draft-IsPublishable :
    (documents : List ProductDocument) (d : Drill) {payload : HashPayload}
    → check_draft documents d ≡ ok payload
    → IsPublishable documents d payload
unfolding check_draft
check_draft-IsPublishable documents d {payload} e = elim (Option-cases d.scenario) [
  | inl missing ↦ absurd (ground arith)
  | inr (scenario, s) ↦ elim (Option-cases d.draft_grounding) [
    | inl missing ↦ absurd (ground arith)
    | inr (grounding, g) ↦ record {
      is_a_draft = ground arith;
      has_rubric = ground arith;
      weights = ground arith;
      has_scenario = ground arith;
      grounded = ground arith;
      live = ground arith;
    }
  ]
]

freeze-not_draft :
    (now drill : ℕ) (hash : String) (drills : List Drill)
    → any (λ x. x.id == drill && is_draft x.status) (freeze now drill hash drills) ≡ false
unfolding freeze
freeze-not_draft now drill hash [] = refl
freeze-not_draft now drill hash (d ∷ drills) =
    ground (arith, freeze-not_draft now drill hash drills)

module _ (content_hash : HashPayload → String) (now : ℕ) (q : PublishRequest)
    (documents : List ProductDocument) (drills : List Drill) where
  -- A publication froze one selected draft that passed the gates.
  pub publish_drill-ok :
      {drills' : List Drill}
      → publish_drill content_hash now q documents drills ≡ ok drills'
      → (org : ℕ) × (team : ℕ) × (viewer : Option ℕ) × (d : Drill) × (payload : HashPayload) × (find
            (is_selected q org team viewer)
            drills
          ≡ some d)
        × IsPublishable documents d payload
        × (drills' ≡ freeze now q.drill_id (content_hash payload) drills)
  unfolding publish_drill
  publish_drill-ok {drills'} e = elim (Result-cases (scope_of q drills)) [
    | inr (bad, failed) ↦ absurd (ground arith)
    | inl ((org, team, viewer), scope) ↦
        elim (Option-cases (find (is_selected q org team viewer) drills)) [
          | inl missing ↦ absurd (ground arith)
          | inr (d, found) ↦ elim (Result-cases (check_draft documents d)) [
            | inr (bad, failed) ↦ absurd (ground arith)
            | inl (payload, passed) ↦ (
              org,
              team,
              viewer,
              d,
              payload,
              found,
              check_draft-IsPublishable documents d {payload = payload} passed,
              ground arith,
            )
          ]
        ]
  ]

-- With no draft of the id left, a publication fails.
publish_drill-not_draft :
    (content_hash : HashPayload → String) (now : ℕ) (q : PublishRequest)
    (documents : List ProductDocument) (drills : List Drill)
    → any (λ x. x.id == q.drill_id && is_draft x.status) drills ≡ false
    → (p : PublishProblem) × (publish_drill content_hash now q documents drills ≡ err p)
unfolding publish_drill
publish_drill-not_draft content_hash now q documents drills h =
    elim (Result-cases (scope_of q drills)) [
      | inr (bad, failed) ↦ (bad, ground arith)
      | inl ((org, team, viewer), scope) ↦
          elim (Option-cases (find (is_selected q org team viewer) drills)) [
            | inl missing ↦ (not_found, ground arith)
            | inr (d, found) ↦ elim (Result-cases (check_draft documents d)) [
              | inr (bad, failed) ↦ (bad, ground arith)
              | inl (payload, passed) ↦ (drill_not_draft, ground arith)
            ]
          ]
    ]

-- A drill is published once: after a publication that succeeds, every later one of the same drill
-- fails, whoever asks, whenever, and whatever documents are live by then.
pub published_once :
    (content_hash : HashPayload → String) (now later : ℕ) (q q' : PublishRequest)
    (documents documents' : List ProductDocument) (drills : List Drill) {drills' : List Drill}
    → publish_drill content_hash now q documents drills ≡ ok drills'
    → q'.drill_id ≡ q.drill_id
    → (p : PublishProblem) × (publish_drill content_hash later q' documents' drills' ≡ err p)
published_once content_hash now later q q' documents documents' drills {drills'} e same =
    let (org, team, viewer, d, payload, found, publishable, written) =
      publish_drill-ok content_hash now q documents drills {drills' = drills'} e in
    publish_drill-not_draft content_hash later q' documents' drills'
      (rw (written, same) (freeze-not_draft now q.drill_id (content_hash payload) drills))
