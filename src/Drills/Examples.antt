-- ===== src/Drills/Examples.antt =====
-- Runs of src/bluelab/modules/drills/freeze.py that meet the hypotheses of its theorems: one draft
-- that is grounded in the live facts of one document.
use bluelab_backend_prod.Prelude.{◌≡◌, refl, String, true, false, none, some, List, [], ◌∷◌, err}
use bluelab_backend_prod.Drills.{
  Drill, HashPayload, ProductDocument, PublishRequest, PublishProblem, draft, published,
  publish_drill,
}
use bluelab_backend_prod.Drills.Freeze.{published_once}
use bluelab_backend_prod.Review.Attempts.{scalar, rubric_rows}

abbrev hash : HashPayload → String
hash payload = "h"

abbrev documents : List ProductDocument
documents = record { id = 9; org = 7; team = 8; live_version = 3; has_live_facts = true } ∷ []

abbrev drill : Drill
drill = record {
  id = 2;
  org = 7;
  team = 8;
  author = 1;
  self_authored = false;
  status = draft;
  scenario_succeeded = true;
  rubric_succeeded = true;
  headline = scalar;
  scenario = some scalar;
  draft_grounding = some (record { documents = (9, 3) ∷ []; facts = scalar });
  answer_key = none;
  content_hash = none;
  published_at = none;
  challenges = scalar;
  hidden_motives = scalar;
  rubric =
      record { id = 11; ord = 2; name = "Needs"; weight = 40; rationale = "asks" }
      ∷ record { id = 12; ord = 1; name = "Close"; weight = 60; rationale = "closes" }
      ∷ [];
}

abbrev frozen : Drill
frozen = record drill {
  status = published;
  answer_key = drill.draft_grounding;
  draft_grounding = none;
  content_hash = some "h";
  published_at = some 100;
}

abbrev request : PublishRequest
request = record {
  drill_id = 2;
  team_id = some 8;
  org_id = some 7;
  viewer_id = none;
  is_manager = true;
}

published_once_example :
    (p : PublishProblem) × (publish_drill hash 200 request documents (frozen ∷ []) ≡ err p)
unfolding publish_drill rubric_rows
published_once_example =
    published_once hash 100 200 request request documents documents (drill ∷ [])
      {drills' = frozen ∷ []} refl refl
