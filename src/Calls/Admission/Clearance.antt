-- ===== src/Calls/Admission/Clearance.antt =====
-- src/bluelab/calls/admission.py: what an admitted call has passed, and all that it writes.
use bluelab_backend_prod.Prelude.{
  ℕ, ◌≡◌, ◌⊎◌, refl, sym, subst, inl, inr, Bool, true, false, ◌&&◌, not, none, some, [], ◌∷◌, ◌++◌,
  ◌==◌, any, is_none, is_some, same_id, ok, arith, Option-cases,
}
use bluelab_backend_prod.Calls.Database.{
  Db, Consent, ErasureRequest, SubjectKind, account_subject, candidate_subject, is_fenced, is_id,
  same_kind,
}
use bluelab_backend_prod.Prelude.Members.{any-ext, any-none}
use bluelab_backend_prod.Calls.Admission.{
  AdmissionRequest, AdmissionResult, Session, require_call_service_access, subject_fenced,
  has_current_consent, consume_allowance, new_attempt, admit,
}

-- A request of the participant's erasure: the candidate's, or the account's where there is none.
abbrev pub is_erasure_of : AdmissionRequest → ErasureRequest → Bool
is_erasure_of q e = (e.org == q.org_id) && elim e.kind [
  | candidate_subject ↦ is_id e.subject q.candidate_id
  | account_subject ↦ is_none q.candidate_id && is_id e.subject q.account_id
]

-- A consent of the participant to one version of the notice.
abbrev pub is_consent_of : AdmissionRequest → ℕ → Consent → Bool
is_consent_of q version k = (k.notice_version == version) && elim q.candidate_id [
  | some c ↦ is_none k.account && is_id c k.candidate
  | none ↦ elim q.account_id [ none ↦ false | some a ↦ is_id a k.account ]
]

kind-cases : (k : SubjectKind) → (k ≡ account_subject) ⊎ (k ≡ candidate_subject)
kind-cases account_subject = inl refl
kind-cases candidate_subject = inr refl

candidate_erasure :
    (q : AdmissionRequest) (e : ErasureRequest) (c : ℕ)
    → q.candidate_id ≡ some c
    → (e.org == q.org_id && same_kind e.kind candidate_subject && e.subject == c)
      ≡ is_erasure_of q e
candidate_erasure q e c named = elim (kind-cases e.kind) [
  | inl person ↦ ground arith
  | inr applicant ↦ ground arith
]

account_erasure :
    (q : AdmissionRequest) (e : ErasureRequest) (a : ℕ)
    → q.candidate_id ≡ none
    → q.account_id ≡ some a
    → (e.org == q.org_id && same_kind e.kind account_subject && e.subject == a) ≡ is_erasure_of q e
account_erasure q e a nobody known = elim (kind-cases e.kind) [
  | inl person ↦ ground arith
  | inr applicant ↦ ground arith
]

no_erasure :
    (q : AdmissionRequest) (e : ErasureRequest)
    → q.candidate_id ≡ none
    → q.account_id ≡ none
    → is_erasure_of q e ≡ false
no_erasure q e nobody unknown = elim (kind-cases e.kind) [
  | inl person ↦ ground arith
  | inr applicant ↦ ground arith
]

candidate_consent :
    (q : AdmissionRequest) (version : ℕ) (k : Consent) (c : ℕ)
    → q.candidate_id ≡ some c
    → (same_id k.account none && same_id k.candidate (some c) && k.notice_version == version)
      ≡ is_consent_of q version k
candidate_consent q version k c named = elim (Option-cases k.account) [
  | inl nobody ↦ elim (Option-cases k.candidate) [
    | inl unknown ↦ ground arith
    | inr (d, applicant) ↦ ground arith
  ]
  | inr (x, somebody) ↦ ground arith
]

account_consent :
    (q : AdmissionRequest) (version : ℕ) (k : Consent) (a : ℕ)
    → q.candidate_id ≡ none
    → q.account_id ≡ some a
    → (is_id a k.account && k.notice_version == version) ≡ is_consent_of q version k
account_consent q version k a nobody known = ground arith

subject_fenced-any :
    (db : Db) (q : AdmissionRequest) → subject_fenced db q ≡ any (is_erasure_of q) db.erasures
unfolding subject_fenced is_fenced
subject_fenced-any db q = elim (Option-cases q.candidate_id) [
  | inr (c, named) ↦
      let matched =
        any-ext (λ e. e.org == q.org_id && same_kind e.kind candidate_subject && e.subject == c)
          (is_erasure_of q) db.erasures λ e. candidate_erasure q e c named in
      ground (arith, matched)
  | inl nobody ↦ elim (Option-cases q.account_id) [
    | inr (a, known) ↦
        let matched =
          any-ext (λ e. e.org == q.org_id && same_kind e.kind account_subject && e.subject == a)
            (is_erasure_of q) db.erasures λ e. account_erasure q e a nobody known in
        ground (arith, matched)
    | inl unknown ↦
        let none_matches =
          sym (any-none (is_erasure_of q) db.erasures λ e. no_erasure q e nobody unknown) in
        ground (arith, none_matches)
  ]
]

has_current_consent-any :
    (db : Db) (q : AdmissionRequest) (version : ℕ)
    → has_current_consent db q.account_id q.candidate_id version ≡ true
    → any (is_consent_of q version) db.consents ≡ true
unfolding has_current_consent
has_current_consent-any db q version h = elim (Option-cases q.candidate_id) [
  | inr (c, named) ↦ elim (Option-cases q.account_id) [
    | inr (a, known) ↦ absurd (ground arith)
    | inl unknown ↦
        subst (λ b. b ≡ true)
          (any-ext _ (is_consent_of q version) db.consents
            λ k. candidate_consent q version k c named)
          (rw (unknown, named) at h)
  ]
  | inl nobody ↦ elim (Option-cases q.account_id) [
    | inr (a, known) ↦
        subst (λ b. b ≡ true)
          (any-ext _ (is_consent_of q version) db.consents
            λ k. account_consent q version k a nobody known)
          (rw (known, nobody) at h)
    | inl unknown ↦ absurd (ground arith)
  ]
]

module _ (session : Session) (version id : ℕ) (q : AdmissionRequest) (db : Db) where
  -- An admitted call's organisation is the session's and has service access; exactly one of account
  -- and candidate is given; the organisation has no request to erase that participant, and there is
  -- a consent of that participant to the current version of the notice.
  pub admitted_is_cleared :
      {db' : Db} {r : AdmissionResult}
      → admit session version id q db ≡ ok (db', r)
      → (same_id session.org (some q.org_id) ≡ true)
        × (session.access_allowed ≡ true)
        × (any (is_erasure_of q) db.erasures ≡ false)
        × (any (is_consent_of q version) db.consents ≡ true)
        × (is_some q.account_id ≡ not (is_some q.candidate_id))
  unfolding admit require_call_service_access has_current_consent
  admitted_is_cleared h = rw (← subject_fenced-any db q) (
    ground arith,
    ground arith,
    ground arith,
    has_current_consent-any db q version (unfold has_current_consent in ground arith),
    ground arith,
  )

  -- Admission appends one attempt, in progress and with the request's data, may change the
  -- recipients' counters, and touches no other table.
  pub admit_writes :
      {db' : Db} {r : AdmissionResult}
      → admit session version id q db ≡ ok (db', r)
      → (r.attempt_id ≡ id)
        × (db' ≡ record db {
          attempts = db.attempts ++ new_attempt q id r.restart ∷ [];
          recipients = db'.recipients;
        })
  unfolding admit consume_allowance
  admit_writes h = ground arith
