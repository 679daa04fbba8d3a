-- ===== src/Assessment/Preflight.antt =====
-- src/bluelab/modules/assessment/service.py, `record_preflight`, with
-- sql/functions/phase6_candidate_identity.sql, `app_record_candidate_preflight`.
use bluelab_backend_prod.Prelude.{
  ℕ, String, Bool, ◌&&◌, Option, none, some, List, [], ◌∷◌, ◌++◌, ◌==◌, any, find, is_some,
  if◌then◌else◌, Result, ok, err, ◌>>=◌, ◌>>◌, raise_if, or_raise,
}
use bluelab_backend_prod.Calls.Database.{Consent, is_id}
use bluelab_backend_prod.Assessment.{
  Portal, AssessmentProblem, database_refused, assessment_over, invalid, is_over, assessment_view,
}

-- The versions of the legal documents in force.
pub record Legal : Type 0 where
  pub notice : Option ℕ
  pub terms : Option ℕ
  pub privacy : Option ℕ

abbrev pub checks_missing : List (String × Bool) → List String
checks_missing [] = []
checks_missing ((key, value) ∷ rest) =
    let more = checks_missing rest in if value then more else key ∷ more

-- the fields of the errors, in their order
unfoldable pub missing : List (String × Bool) → Bool → Bool → List String
missing checks consent terms =
    checks_missing checks
    ++ (if consent then [] else "consent" ∷ [])
    ++ (if terms then [] else "terms_accepted" ∷ [])

abbrev pub is_consent : ℕ → ℕ → Consent → Bool
is_consent cand version k = is_id cand k.candidate && k.notice_version == version

-- its inserts, which do nothing on a conflict, and its update
unfoldable pub preflight_writes : ℕ → ℕ → Portal → Portal
preflight_writes notice cand p = record {
  db = if any (is_consent cand notice) p.db.consents then p.db else record p.db {
    consents =
        p.db.consents
        ++ record { account = none; candidate = some cand; notice_version = notice } ∷ [];
  };
  passed = cand ∷ p.passed;
  accepted = cand ∷ p.accepted;
}

-- `app_record_candidate_preflight`, for the session's candidate
unfoldable pub app_record_candidate_preflight : Legal → ℕ → Portal → Result AssessmentProblem Portal
unfolding preflight_writes
app_record_candidate_preflight legal cand p = do
  c ← or_raise (find (λ c. c.id == cand) p.db.candidates) database_refused
  raise_if (is_some c.completed_at) database_refused
  notice ← or_raise legal.notice database_refused
  terms ← or_raise legal.terms database_refused
  privacy ← or_raise legal.privacy database_refused
  ok (preflight_writes notice cand p)

unfoldable pub record_preflight :
    Legal → ℕ → List (String × Bool) → Bool → Bool → Portal → Result AssessmentProblem Portal
unfolding assessment_view missing app_record_candidate_preflight
record_preflight legal cand checks consent terms p = do
  view ← assessment_view p cand
  raise_if (is_over view.state) assessment_over
  elim (missing checks consent terms) [
    | [] ↦ app_record_candidate_preflight legal cand p
    | _ ∷ _ ↦ err (invalid (missing checks consent terms))
  ]
