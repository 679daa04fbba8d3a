-- ===== src/Assessment/Gate.antt =====
-- src/bluelab/modules/assessment/service.py: the preflight gate opens the assessment.
use bluelab_backend_prod.Prelude.{
  ℕ, ◌≡◌, refl, sym, String, Bool, true, false, ◌&&◌, ◌||◌, none, some, List, [], ◌∷◌, ◌++◌, any,
  all, find, if◌then◌else◌, is_none, is_some, same_id, ◌==◌, All, ok, arith, ==_refl, Option-cases,
  Bool-cases, inl, inr,
}
use bluelab_backend_prod.Prelude.Members.{find-some}
use bluelab_backend_prod.Calls.Database.{Consent, Candidate}
use bluelab_backend_prod.Calls.Admission.{has_current_consent}
use bluelab_backend_prod.Assessment.{Portal, View, is_blocked, is_over, assessment_view, state_of}
use bluelab_backend_prod.Assessment.Preflight.{
  Legal, is_consent, checks_missing, missing, preflight_writes, app_record_candidate_preflight,
  record_preflight,
}

-- A consent names one subject.
abbrev pub names_one : Consent → Bool
names_one k = is_none k.account || is_none k.candidate

any-append_last :
    (p : Consent → Bool) (ks : List Consent) (k : Consent)
    → p k ≡ true
    → any p (ks ++ k ∷ []) ≡ true
any-append_last p [] k h = ground arith
any-append_last p (x ∷ ks) k h = ground (arith, any-append_last p ks k)

consent_counts :
    (cand version : ℕ) (ks : List Consent)
    → All (λ k. names_one k ≡ true) ks
    → any (is_consent cand version) ks ≡ true
    → any
        (λ k.
          same_id k.account none && same_id k.candidate (some cand) && k.notice_version == version)
        ks
      ≡ true
consent_counts cand version [] one h = cc
consent_counts cand version (k ∷ ks) one h = ground (arith, consent_counts cand version ks)

preflight_writes-consent :
    (version cand : ℕ) (p : Portal)
    → All (λ k. names_one k ≡ true) p.db.consents
    → has_current_consent (preflight_writes version cand p).db none (some cand) version ≡ true
unfolding preflight_writes has_current_consent
preflight_writes-consent version cand p one =
    elim (Bool-cases (any (is_consent cand version) p.db.consents)) [
      | inl given ↦ rw given (consent_counts cand version p.db.consents one given)
      | inr fresh ↦
          let k : Consent = record {
            account = none;
            candidate = some cand;
            notice_version = version;
          } in
          rw fresh (
            any-append_last
              (λ x.
                same_id x.account none
                && same_id x.candidate (some cand)
                && x.notice_version == version)
              p.db.consents k (ground (arith, ==_refl cand, ==_refl version)))
    ]

preflight_writes-candidates :
    (version cand : ℕ) (p : Portal)
    → (preflight_writes version cand p).db.candidates ≡ p.db.candidates
unfolding preflight_writes
preflight_writes-candidates version cand p = ground arith

preflight_writes-passed :
    (version cand : ℕ) (p : Portal)
    → any (λ i. i == cand) (preflight_writes version cand p).passed ≡ true
unfolding preflight_writes
preflight_writes-passed version cand p = ground (arith, ==_refl cand)

app_record_candidate_preflight-ok :
    (legal : Legal) (cand version : ℕ) (p : Portal) {p' : Portal}
    → legal.notice ≡ some version
    → app_record_candidate_preflight legal cand p ≡ ok p'
    → (preflight_writes version cand p ≡ p')
      × ((c : Candidate) × (find (λ c. c.id == cand) p.db.candidates ≡ some c)
          × (is_some c.completed_at ≡ false))
unfolding app_record_candidate_preflight
app_record_candidate_preflight-ok legal cand version p {p'} current e =
    elim (Option-cases (find (λ c. c.id == cand) p.db.candidates)) [
      | inl nobody ↦ ground arith
      | inr (c, known) ↦ elim (Option-cases legal.terms) [
        | inl no_terms ↦ ground arith
        | inr (terms, t) ↦ elim (Option-cases legal.privacy) [
          | inl no_privacy ↦ ground arith
          | inr (privacy, v) ↦ (ground arith, (c, known, ground arith))
        ]
      ]
    ]

checks_missing-none :
    (checks : List (String × Bool)) → checks_missing checks ≡ [] → all (λ c. c.1) checks ≡ true
checks_missing-none [] h = refl
checks_missing-none ((key, value) ∷ checks) h = ground (arith, checks_missing-none checks)

append-none : (xs ys : List String) → xs ++ ys ≡ [] → (xs ≡ []) × (ys ≡ [])
append-none [] ys h = (refl, h)
append-none (x ∷ xs) ys h = cc

missing-none :
    (checks : List (String × Bool)) (consent terms : Bool)
    → missing checks consent terms ≡ []
    → (all (λ c. c.1) checks ≡ true) × (consent ≡ true) × (terms ≡ true)
unfolding missing
missing-none checks consent terms h =
    let asked : List String = if consent then [] else "consent" ∷ [] in
    let (start, agreed) =
      append-none (checks_missing checks ++ asked) (if terms then [] else "terms_accepted" ∷ [])
        h in
    let (none_failed, consented) = append-none (checks_missing checks) asked start in
    (checks_missing-none checks none_failed, ground arith, ground arith)

record_preflight-ok :
    (legal : Legal) (cand : ℕ) (checks : List (String × Bool)) (consent terms : Bool) (p : Portal)
    {p' : Portal}
    → record_preflight legal cand checks consent terms p ≡ ok p'
    → (missing checks consent terms ≡ []) × (app_record_candidate_preflight legal cand p ≡ ok p')
unfolding record_preflight assessment_view
record_preflight-ok legal cand checks consent terms p {p'} e =
    elim (Option-cases (find (λ c. c.id == cand) p.db.candidates)) [
      | inl nobody ↦ ground arith
      | inr (c, known) ↦ ground arith
    ]

-- A passed preflight of a candidate that has not completed opens the view.
view-opens :
    (p : Portal) (cand : ℕ) (c : Candidate)
    → find (λ c. c.id == cand) p.db.candidates ≡ some c
    → is_some c.completed_at ≡ false
    → any (λ i. i == cand) p.passed ≡ true
    → (view : View) × (assessment_view p cand ≡ ok view)
      × (is_over view.state ≡ false)
      × (is_blocked view.state ≡ false)
unfolding assessment_view state_of
view-opens p cand c known going passed =
    let named : c.id ≡ cand =
      ground (arith, find-some (λ c. c.id == cand) p.db.candidates {a = c}) in
    rw known
      (_, refl, rw (going, named, passed) (ground arith), rw (going, named, passed) (ground arith))

-- The preflight gate: a preflight that is recorded had every check passed and both agreements
-- given. From then on the admission finds the candidate's consent to the notice in force, and the
-- view is neither blocked nor over, provided that each stored consent names one subject.
pub record_preflight_opens :
    (legal : Legal) (cand version : ℕ) (checks : List (String × Bool)) (consent terms : Bool)
    (p : Portal) {p' : Portal}
    → All (λ k. names_one k ≡ true) p.db.consents
    → legal.notice ≡ some version
    → record_preflight legal cand checks consent terms p ≡ ok p'
    → (all (λ c. c.1) checks ≡ true)
      × (consent ≡ true)
      × (terms ≡ true)
      × (has_current_consent p'.db none (some cand) version ≡ true)
      × ((view : View) × (assessment_view p' cand ≡ ok view)
          × (is_over view.state ≡ false)
          × (is_blocked view.state ≡ false))
record_preflight_opens legal cand version checks consent terms p {p'} one current e =
    let (complete, wrote) = record_preflight-ok legal cand checks consent terms p {p' = p'} e in
    let (passed, agreed, accepted) = missing-none checks consent terms complete in
    let (same, (c, known, going)) =
      app_record_candidate_preflight-ok legal cand version p {p' = p'} current wrote in
    let q : Portal = preflight_writes version cand p in
    let opened =
      view-opens q cand c (rw (preflight_writes-candidates version cand p) known) going
        (preflight_writes-passed version cand p) in
    rw (sym same) (passed, agreed, accepted, preflight_writes-consent version cand p one, opened)
