-- ===== src/Assessment/Brief.antt =====
-- src/bluelab/modules/assessment/service.py: the brief and the reference of a stage. `published`
-- is the published drill of a stage.
use text.Mathlib.Text.{◌==◌ as text_eq}
use bluelab_backend_prod.Prelude.{
  ℕ, zero, suc, String, Option, none, some, List, [], ◌∷◌, ◌++◌, map, length, sum, if◌then◌else◌,
  Result, ok, ◌>>=◌, or_raise,
}
use bluelab_backend_prod.Assessment.{
  Portal, AssessmentProblem, not_found, drill_not_startable, assessment_view, startable_stage,
}

-- A fact and a document of the frozen answer key; a missing title and label have their defaults.
pub record Fact : Type 0 where
  pub label : Option String
  pub value : Option String
  pub note : Option String

pub record Document : Type 0 where
  pub title : Option String
  pub facts : List Fact

pub record DrillRow : Type 0 where
  pub drill_id : ℕ
  pub label : String
  pub context : String
  pub documents : List Document
  pub snapshot_at : Option ℕ

abbrev pub all_facts : List Document → List Fact
all_facts [] = []
all_facts (d ∷ ds) = d.facts ++ all_facts ds

-- str(fact['value']) … if fact.get('value')
unfoldable pub fact_values : List Fact → List String
fact_values [] = []
fact_values (f ∷ fs) =
    let rest = fact_values fs in
    elim f.value [ none ↦ rest | some v ↦ if text_eq v "" then rest else v ∷ rest ]

abbrev pub take {ℓ} : {A : Type ℓ} → ℕ → List A → List A
take zero xs = []
take (suc n) [] = []
take (suc n) (x ∷ xs) = x ∷ take n xs

pub record Brief : Type 0 where
  pub drill_id : ℕ
  pub label : String
  pub context : String
  pub product_summary : List String
  pub ord : ℕ
  pub stages : ℕ

-- The product summary is the list of the values that ' '.join joins.
unfoldable pub stage_brief : (ℕ → Option DrillRow) → Portal → ℕ → ℕ → Result AssessmentProblem Brief
unfolding startable_stage fact_values
stage_brief published p cand stage = do
  v ← startable_stage p cand stage
  view ← assessment_view p cand
  row ← or_raise (published stage) drill_not_startable
  ok (record {
    drill_id = row.drill_id;
    label = row.label;
    context = row.context;
    product_summary = take 3 (fact_values (all_facts row.documents));
    ord = v.stage.ord;
    stages = view.total;
  })

pub record FactView : Type 0 where
  pub label : String
  pub value : String
  pub note : Option String

pub record Group : Type 0 where
  pub document_title : String
  pub facts : List FactView

pub record Reference : Type 0 where
  pub drill_id : ℕ
  pub groups : List Group
  pub source_documents : List String
  pub fact_count : ℕ
  pub snapshot_at : Option ℕ

abbrev pub with_default : String → Option String → String
with_default d none = d
with_default d (some s) = s

unfoldable pub fact_view : Fact → FactView
fact_view f = record {
  label = with_default "Fact" f.label;
  value = with_default "" f.value;
  note = f.note;
}

unfoldable pub group_of : Document → Group
unfolding fact_view
group_of d = record {
  document_title = with_default "Product reference" d.title;
  facts = map fact_view d.facts;
}

unfoldable pub stage_reference :
    (ℕ → Option DrillRow) → Portal → ℕ → ℕ → Result AssessmentProblem Reference
unfolding stage_brief group_of
stage_reference published p cand stage = stage_brief published p cand stage >>= λ brief.
    or_raise (published stage) not_found >>= λ row. ok (record {
      drill_id = row.drill_id;
      groups = map group_of row.documents;
      source_documents = map (λ d. with_default "Product reference" d.title) row.documents;
      fact_count = sum (map (λ d. length d.facts) row.documents);
      snapshot_at = row.snapshot_at;
    })
