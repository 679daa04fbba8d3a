-- ===== src/Review/Attempts.antt =====
-- src/bluelab/modules/review/attempts.py: the work item of a grading, and a grading whose retries
-- are exhausted, with the checks that the inputs of src/bluelab/adapters/evaluator_llm.py make when
-- they are built. What a work item passes on and does not check itself is left out of it: the
-- scenario, the answer key, the names of the dimensions, and the type of the call, which the table of
-- drills holds to the four that the input takes.
pub mod WorkItem
pub mod Exhausted
mod Examples
use Prim.Native.Char.{Char, code}
use Prim.Native.String.{count}
use package.text.Mathlib.Text.{◌==◌ as text_eq}
use bluelab_backend_prod.Prelude.{
  ltb, all, length, ℕ, ◌+◌, String, Bool, true, false, ◌&&◌, ◌||◌, not, Option, none, some, List,
  [], ◌∷◌, ◌++◌, map, ◌==◌, leb, any, find, keep, sum, is_none, is_some, if◌then◌else◌, Result, ok,
  err, ◌>>=◌, ◌>>◌, raise_if, or_raise,
}
use bluelab_backend_prod.Calls.Database.{Attempt, Status, grading_pending, TranscriptEntry}
use bluelab_backend_prod.Review.Evaluation.{
  GradingBasis, RubricDimensionInput, TranscriptSignal, is_empty,
}
use bluelab_backend_prod.Review.Scorecard.{Scorecard, is_gradable}

-- What a JSON column holds.
mutual
  pub data Value : Type 0 where
    text : String → Value
    scalar : Value
    array : Values → Value
    object : Entries → Value

  pub data Values : Type 0 where
    no_values : Values
    a_value : Value → Values → Values

  pub data Entries : Type 0 where
    no_entries : Entries
    an_entry : String → Value → Entries → Entries

-- `_text_fragments`
unfoldable mutual
  pub text_fragments : Value → List String
  text_fragments (text s) = s ∷ []
  text_fragments scalar = []
  text_fragments (array vs) = fragments_of_values vs
  text_fragments (object es) = fragments_of_entries es

  pub fragments_of_values : Values → List String
  fragments_of_values no_values = []
  fragments_of_values (a_value v vs) = text_fragments v ++ fragments_of_values vs

  pub fragments_of_entries : Entries → List String
  fragments_of_entries no_entries = []
  fragments_of_entries (an_entry k v es) = text_fragments v ++ fragments_of_entries es

pub record RubricRow : Type 0 where
  pub id : ℕ
  pub ord : ℕ
  pub name : String
  pub weight : ℕ
  pub rationale : String

-- A drill with the rows that refer to it; a JSON null is none.
pub record FrozenDrill : Type 0 where
  pub id : ℕ
  pub scenario : Option Value
  pub answer_key : Option Value
  pub content_hash : Option String
  pub rubric : List RubricRow
  pub concealed : Option (Value × Value)

pub record GradingTables : Type 0 where
  pub attempts : List Attempt
  pub scorecards : List Scorecard
  pub drills : List FrozenDrill
  pub transcript : List TranscriptEntry

pub record GradingWorkItem : Type 0 where
  pub basis : GradingBasis
  pub org_id : ℕ
  pub team_id : ℕ
  pub ended_at : ℕ
  pub concealed_fragments : List String

pub data WorkItemError : Type 0 where
  no_frozen_basis no_rubric_or_transcript wrong_weights : WorkItemError
  not_a_dict invalid_rubric invalid_transcript invalid_hash : WorkItemError

-- order by ord, id
abbrev pub precedes : RubricRow → RubricRow → Bool
precedes r s = if r.ord == s.ord then leb r.id s.id else leb r.ord s.ord

unfoldable pub insert_row : RubricRow → List RubricRow → List RubricRow
insert_row r [] = r ∷ []
insert_row r (s ∷ rows) =
    let rest = insert_row r rows in if precedes r s then r ∷ s ∷ rows else s ∷ rest

unfoldable pub rubric_rows : List RubricRow → List RubricRow
unfolding insert_row
rubric_rows [] = []
rubric_rows (r ∷ rows) = insert_row r (rubric_rows rows)

-- order by seq
unfoldable pub insert_entry : TranscriptEntry → List TranscriptEntry → List TranscriptEntry
insert_entry e [] = e ∷ []
insert_entry e (x ∷ es) =
    let rest = insert_entry e es in if leb e.seq x.seq then e ∷ x ∷ es else x ∷ rest

unfoldable pub transcript_rows : List TranscriptEntry → List TranscriptEntry
unfolding insert_entry
transcript_rows [] = []
transcript_rows (e ∷ es) = insert_entry e (transcript_rows es)

abbrev pub dimension_of : RubricRow → RubricDimensionInput
dimension_of r = record { dimension_id = r.id; weight = r.weight }

abbrev pub signal_of : TranscriptEntry → TranscriptSignal
signal_of e = record { seq = e.seq; speaker = e.speaker; at_ms = e.at_ms; text = e.text }

-- The concealed values of a drill.
abbrev pub fragments_of : Option (Value × Value) → List String
fragments_of none = []
fragments_of (some (challenges, motives)) = text_fragments challenges ++ text_fragments motives

-- Whether the attempt is to be graded.
unfoldable pub is_waiting : GradingTables → Attempt → Bool
is_waiting t a = not (any (λ s. s.attempt == a.id) t.scorecards) && is_gradable a.status

unfoldable pub is_frozen : Attempt → FrozenDrill → Bool
is_frozen a d =
    is_some a.ended_at && is_some d.scenario && is_some d.answer_key && is_some d.content_hash

abbrev pub of_length : ℕ → ℕ → String → Bool
of_length least most s = leb least (count s) && leb (count s) most

unfoldable pub is_dimension : RubricRow → Bool
is_dimension r = of_length 1 200 r.name && leb r.weight 100 && of_length 1 4000 r.rationale

unfoldable pub is_signal : TranscriptEntry → Bool
is_signal e =
    (text_eq e.speaker "participant" || text_eq e.speaker "buyer") && of_length 1 20000 e.text

-- [0-9a-f]
abbrev pub is_hex : Char → Bool
is_hex c = (leb 48 (code c) && leb (code c) 57) || (leb 97 (code c) && leb (code c) 102)

unfoldable pub all_hex : String → Bool
all_hex String.[] = true
all_hex (String.◌∷◌ c s) = is_hex c && all_hex s

-- ^[0-9a-f]{64}$
unfoldable pub is_hash : String → Bool
unfolding all_hex
is_hash s = count s == 64 && all_hex s

-- What `dict` takes for one key and its value, where the key is to be a text.
abbrev pub is_pair : Value → Bool
is_pair (text s) = count s == 2
is_pair scalar = false
is_pair (array (a_value (text s) (a_value v no_values))) = true
is_pair (array _) = false
is_pair (object (an_entry k v (an_entry l w no_entries))) = true
is_pair (object _) = false

unfoldable pub all_pairs : Values → Bool
all_pairs no_values = true
all_pairs (a_value v vs) = is_pair v && all_pairs vs

-- dict(value)
unfoldable pub is_dict : Value → Bool
unfolding all_pairs
is_dict (text s) = count s == 0
is_dict scalar = false
is_dict (array vs) = all_pairs vs
is_dict (object es) = true

unfoldable pub holds_dict : Option Value → Bool
unfolding is_dict
holds_dict none = false
holds_dict (some v) = is_dict v

-- What `GradingBasis` and its parts check when they are built.
unfoldable pub check_basis :
    FrozenDrill → List RubricRow → List TranscriptEntry → Result WorkItemError (Unit {0})
unfolding holds_dict is_dimension is_signal is_hash
check_basis d rubric transcript = do
  raise_if (not (holds_dict d.scenario) || not (holds_dict d.answer_key)) not_a_dict
  raise_if (not (all is_dimension rubric)) invalid_rubric
  raise_if (not (all is_signal transcript)) invalid_transcript
  hash ← or_raise d.content_hash no_frozen_basis
  raise_if (not (is_hash hash)) invalid_hash
  raise_if (ltb 20 (length rubric)) invalid_rubric
  raise_if (ltb 5000 (length transcript)) invalid_transcript

unfoldable pub work_item_of :
    GradingTables → Attempt → FrozenDrill → Result WorkItemError GradingWorkItem
unfolding is_frozen rubric_rows transcript_rows check_basis
work_item_of t a d = do
  raise_if (not (is_frozen a d)) no_frozen_basis
  ended ← or_raise a.ended_at no_frozen_basis
  let rubric = rubric_rows d.rubric
  let transcript = transcript_rows (keep (λ e. e.attempt == a.id) t.transcript)
  raise_if (is_empty rubric || is_empty transcript) no_rubric_or_transcript
  raise_if (not (sum (map RubricRow.weight rubric) == 100)) wrong_weights
  check_basis d rubric transcript
  ok (record {
    basis = record { rubric = map dimension_of rubric; transcript = map signal_of transcript };
    org_id = a.org;
    team_id = a.team;
    ended_at = ended;
    concealed_fragments = fragments_of d.concealed;
  })

-- The join gives no row for an attempt whose drill is missing.
unfoldable pub grading_work_item : GradingTables → ℕ → Result WorkItemError (Option GradingWorkItem)
unfolding is_waiting work_item_of
grading_work_item t attempt = elim (find (λ a. a.id == attempt) t.attempts) [
  | none ↦ ok none
  | some a ↦ elim (find (λ d. d.id == a.drill) t.drills) [
    | none ↦ ok none
    | some d ↦ if is_waiting t a then (work_item_of t a d >>= λ w. ok (some w)) else ok none
  ]
]

-- An `ops_fault` row of kind `grading_failure`.
pub record GradingFault : Type 0 where
  pub id : ℕ
  pub org : ℕ
  pub attempt : ℕ
  pub is_open : Bool
  pub retry_count : ℕ

-- `_PENDING`
unfoldable pub mark_pending : ℕ → List Attempt → List Attempt
mark_pending attempt [] = []
mark_pending attempt (a ∷ rest) =
    (if a.id == attempt && is_gradable a.status then record a { status = grading_pending } else a)
    ∷ mark_pending attempt rest

-- `_OPEN_GRADING_FAULT`
unfoldable pub open_grading_fault : ℕ → ℕ → ℕ → List Attempt → List GradingFault → List GradingFault
open_grading_fault id attempt retries rows faults = elim (find (λ a. a.id == attempt) rows) [
  | none ↦ faults
  | some a ↦
      if any (λ f. f.attempt == attempt && f.is_open) faults
      then faults
      else faults
        ++ record { id = id; org = a.org; attempt = attempt; is_open = true; retry_count = retries }
          ∷ []
]

unfoldable pub mark_grading_exhausted :
    ℕ → ℕ → ℕ → List Attempt × List GradingFault → List Attempt × List GradingFault
unfolding mark_pending open_grading_fault
mark_grading_exhausted id attempt retries (rows, faults) =
    let pending = mark_pending attempt rows in
    (pending, open_grading_fault id attempt retries pending faults)
