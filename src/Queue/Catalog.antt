-- ===== src/Queue/Catalog.antt =====
-- src/bluelab/platform/queue/catalog.py and erasure_fence.py: what a lane's job may carry, and the
-- people that it is about.
use mathlib.Core.Bool.{Bool, true, false}
use text.Mathlib.Text.{◌==◌ as text_eq}
use bluelab_backend_prod.Prelude.{
  ℕ, String, ◌&&◌, ◌||◌, not, Option, none, some, List, [], ◌∷◌, ◌++◌, ◌==◌, any, all, find,
  if◌then◌else◌, Result, ok, err, ◌>>◌, raise_if,
}

pub data Lane : Type 0 where
  grade_attempt generate_scenario generate_rubric extract_facts : Lane
  render_report dispatch_email execute_erasure execute_export : Lane

-- A value of a payload: the canonical text of a UUID, another text of one, a text, or no text.
pub data PayloadValue : Type 0 where
  canonical_id : ℕ → PayloadValue
  loose_id : ℕ → PayloadValue
  words : String → PayloadValue
  content : PayloadValue

abbrev pub Payload : Type 0
Payload = List (String × PayloadValue)

pub data PayloadError : Type 0 where
  missing_key not_an_id not_a_uuid not_canonical : PayloadError

-- `SPECS`, the payload keys and the attempts
abbrev pub payload_keys : Lane → List String
payload_keys grade_attempt = "attempt_id" ∷ []
payload_keys generate_scenario = "drill_id" ∷ "request_id" ∷ []
payload_keys generate_rubric = "drill_id" ∷ "request_id" ∷ []
payload_keys extract_facts = "upload_id" ∷ []
payload_keys render_report = "candidate_id" ∷ []
payload_keys dispatch_email = "email_send_id" ∷ []
payload_keys execute_erasure = "request_id" ∷ []
payload_keys execute_export = "request_id" ∷ []

abbrev pub max_attempts : Lane → ℕ
max_attempts grade_attempt = 5
max_attempts generate_scenario = 3
max_attempts generate_rubric = 3
max_attempts extract_facts = 3
max_attempts render_report = 3
max_attempts dispatch_email = 5
max_attempts execute_erasure = 5
max_attempts execute_export = 5

-- key.endswith(suffix)
unfoldable pub ends_with : String → String → Bool
ends_with suffix String.[] = text_eq suffix ""
ends_with suffix (String.◌∷◌ c s) = text_eq suffix (String.◌∷◌ c s) || ends_with suffix s

unfoldable pub carries_key : String → Payload → Bool
carries_key key payload = any (λ e. text_eq e.0 key) payload

abbrev pub check_value : PayloadValue → Result PayloadError (Unit {0})
check_value (canonical_id n) = ok tt
check_value (loose_id n) = err not_canonical
check_value (words s) = err not_a_uuid
check_value content = err not_an_id

unfoldable pub check_fields : Payload → Result PayloadError (Unit {0})
unfolding ends_with
check_fields [] = ok tt
check_fields ((key, value) ∷ rest) =
    raise_if (not (ends_with "_id" key)) not_an_id >> (check_value value >> check_fields rest)

-- `validate_payload`
unfoldable pub validate_payload : Lane → Payload → Result PayloadError (Unit {0})
unfolding check_fields carries_key
validate_payload lane payload =
    raise_if (not (all (λ key. carries_key key payload) (payload_keys lane))) missing_key
    >> check_fields payload

pub data ErasureSubject : Type 0 where
  account candidate : ErasureSubject

abbrev pub same_subject_kind : ErasureSubject → ErasureSubject → Bool
same_subject_kind account account = true
same_subject_kind candidate candidate = true
same_subject_kind _ _ = false

-- A row that a job is about, with the people on it.
pub record Owned : Type 0 where
  pub key : ℕ
  pub account_id : Option ℕ
  pub candidate_id : Option ℕ

-- The tables that the fence reads, and the rest of the database.
pub record WorkDb (W : Type 0) : Type 0 where
  pub attempts : List Owned
  pub drills : List Owned
  pub uploads : List Owned
  pub email_sends : List Owned
  pub erasure_requests : List (ErasureSubject × ℕ)
  pub rest : W

-- UUID(str(payload[key])); a payload was validated before
unfoldable pub id_at : String → Payload → Option ℕ
id_at key [] = none
id_at key ((k, canonical_id n) ∷ rest) =
    let later = id_at key rest in if text_eq k key then some n else later
id_at key ((k, _) ∷ rest) = let later = id_at key rest in if text_eq k key then none else later

abbrev pub account_of : Option ℕ → List (ErasureSubject × ℕ)
account_of none = []
account_of (some a) = (account, a) ∷ []

abbrev pub candidate_of : Option ℕ → List (ErasureSubject × ℕ)
candidate_of none = []
candidate_of (some c) = (candidate, c) ∷ []

abbrev pub first_owner : Owned → List (ErasureSubject × ℕ)
first_owner r = elim r.account_id [
  | some a ↦ (account, a) ∷ []
  | none ↦ candidate_of r.candidate_id
]

abbrev pub people_of :
    (Owned → List (ErasureSubject × ℕ)) → Option ℕ → List Owned → List (ErasureSubject × ℕ)
people_of f none rows = []
people_of f (some key) rows = elim (find (λ r. r.key == key) rows) [ none ↦ [] | some r ↦ f r ]

-- `_subject_identities`
unfoldable pub subject_identities :
    {W : Type 0} → WorkDb W → Lane → Payload → List (ErasureSubject × ℕ)
unfolding id_at
subject_identities db grade_attempt p = people_of first_owner (id_at "attempt_id" p) db.attempts
subject_identities db generate_scenario p =
    people_of (λ r. account_of r.account_id) (id_at "drill_id" p) db.drills
subject_identities db generate_rubric p =
    people_of (λ r. account_of r.account_id) (id_at "drill_id" p) db.drills
subject_identities db extract_facts p =
    people_of (λ r. account_of r.account_id) (id_at "upload_id" p) db.uploads
subject_identities db render_report p = candidate_of (id_at "candidate_id" p)
subject_identities db dispatch_email p =
    people_of (λ r. account_of r.account_id ++ candidate_of r.candidate_id)
      (id_at "email_send_id" p) db.email_sends
subject_identities db execute_erasure p = []
subject_identities db execute_export p = []

-- lane not in {Lane.EXECUTE_ERASURE, Lane.EXECUTE_EXPORT}
abbrev pub is_ordinary : Lane → Bool
is_ordinary execute_erasure = false
is_ordinary execute_export = false
is_ordinary _ = true

-- `subject_is_erased`; the order of the locks does not count
unfoldable pub subject_is_erased : {W : Type 0} → WorkDb W → Lane → Payload → Bool
unfolding subject_identities
subject_is_erased db lane p =
    is_ordinary lane
    && any (λ s. any (λ r. same_subject_kind r.0 s.0 && r.1 == s.1) db.erasure_requests)
        (subject_identities db lane p)
