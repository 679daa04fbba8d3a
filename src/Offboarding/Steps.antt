-- ===== src/Offboarding/Steps.antt =====
-- src/bluelab/lifecycle: the operations on the lifecycle of organisations, as steps on the tables.
-- A call that raises is rolled back. Other transactions may answer subject requests at any time.
use bluelab_backend_prod.Prelude.{ℕ, ◌≤◌, ◌≡◌, refl, Option, List, [], ◌∷◌, Result, ok, err}
use bluelab_backend_prod.Offboarding.{
  RetentionPolicy, Library, LifecycleEvent, LifecycleProblem, LifecycleTables, LifecycleOrder,
}
use bluelab_backend_prod.Offboarding.Commands.{reject_term}
use bluelab_backend_prod.Offboarding.Claim.{apply_claim, prepare_claim}
use bluelab_backend_prod.Offboarding.Episode.{
  apply_cancel_offboarding, apply_deadline_extension, apply_start_offboarding,
  finalize_start_offboarding, prepare_cancel_offboarding, prepare_deadline_extension,
  prepare_start_offboarding,
}
use bluelab_backend_prod.Offboarding.Fence.{Evolves, IsFenced, answered, kept}
use bluelab_backend_prod.Offboarding.Renewal.{TermCommand, apply_term, prepare_term}
use bluelab_backend_prod.Offboarding.Restrictions.{
  apply_restriction, prepare_create, prepare_release,
}
use bluelab_backend_prod.Offboarding.Revision.{apply_policy_revision, prepare_policy_revision}
use bluelab_backend_prod.Offboarding.Settling.{
  apply_claim-Evolves, apply_expiry-Evolves, apply_restriction-Evolves, apply_revision-Evolves,
  apply_term-Evolves,
}
use bluelab_backend_prod.Offboarding.Settling.Episodes.{
  apply_cancel-Evolves, apply_extension-Evolves, apply_start-Evolves,
}
use bluelab_backend_prod.Offboarding.Staging.{
  prepare_cancel-Evolves, prepare_create-Evolves, prepare_extension-Evolves,
  prepare_release-Evolves, prepare_revision-Evolves, prepare_start-Evolves, prepare_term-Evolves,
}
use bluelab_backend_prod.Offboarding.Staging.Unattended.{
  finalize-Evolves, prepare_claim-Evolves, prepare_expiry-Evolves, reject-Evolves,
}
use bluelab_backend_prod.Offboarding.Terms.{apply_expiry, prepare_expiry}
use bluelab_backend_prod.Subjects.{Request}

pub data LifecycleStep : Type 0 where
  expires : ℕ → ℕ → ℕ → LifecycleStep
  terms : LifecycleOrder → TermCommand → LifecycleStep
  starts : LifecycleOrder → LifecycleStep
  finalizes : ℕ → LifecycleStep
  cancels : ℕ → LifecycleOrder → LifecycleStep
  extends : ℕ → ℕ → LifecycleOrder → LifecycleStep
  revises : ℕ → RetentionPolicy → LifecycleOrder → LifecycleStep
  restricts : ℕ → Option ℕ → LifecycleOrder → LifecycleStep
  releases : ℕ → LifecycleOrder → LifecycleStep
  claims : ℕ → ℕ → ℕ → LifecycleStep
  rejects : ℕ → LifecycleStep
  expiry_accepted term_accepted start_accepted cancel_accepted : ℕ → LifecycleEvent → LifecycleStep
  revision_accepted : ℕ → LifecycleEvent → LifecycleStep
  extension_accepted restriction_accepted claim_accepted : ℕ → LifecycleEvent → LifecycleStep
  answers : List Request → LifecycleStep

-- The tables after a transaction with a result, and after one without.
abbrev pub committed {ℓ} :
    {A : Type ℓ} → LifecycleTables → Result LifecycleProblem (LifecycleTables × A) → LifecycleTables
committed t (ok r) = r.0
committed t (err e) = t

abbrev pub committed_only :
    LifecycleTables → Result LifecycleProblem LifecycleTables → LifecycleTables
committed_only t (ok t') = t'
committed_only t (err e) = t

-- One step at a time.
unfoldable pub perform : Library → ℕ → LifecycleStep → LifecycleTables → LifecycleTables
unfolding prepare_expiry prepare_term prepare_start_offboarding finalize_start_offboarding
    prepare_cancel_offboarding prepare_deadline_extension prepare_create prepare_release
    prepare_claim reject_term apply_expiry apply_term apply_start_offboarding
    prepare_policy_revision apply_policy_revision apply_cancel_offboarding apply_deadline_extension
    apply_restriction apply_claim
perform lib now (expires org head fresh) t = committed t (prepare_expiry lib now org head fresh t)
perform lib now (terms c m) t = committed t (prepare_term lib now c m t)
perform lib now (starts c) t = committed t (prepare_start_offboarding now c t)
perform lib now (finalizes id) t = committed_only t (finalize_start_offboarding lib now id t)
perform lib now (cancels episode c) t = committed t (prepare_cancel_offboarding now episode c t)
perform lib now (extends episode deadline c) t =
    committed t (prepare_deadline_extension episode deadline c t)
perform lib now (revises contract p c) t = committed t (prepare_policy_revision contract p c t)
perform lib now (restricts episode related c) t = committed t (prepare_create episode related c t)
perform lib now (releases id c) t = committed t (prepare_release id c t)
perform lib now (claims org episode sequence) t =
    committed t (prepare_claim lib now org episode sequence t)
perform lib now (rejects id) t = reject_term id t
perform lib now (expiry_accepted id e) t = committed_only t (apply_expiry id e t)
perform lib now (term_accepted id e) t = committed_only t (apply_term id e t)
perform lib now (start_accepted id e) t = committed_only t (apply_start_offboarding id e t)
perform lib now (cancel_accepted id e) t = committed_only t (apply_cancel_offboarding now id e t)
perform lib now (extension_accepted id e) t = committed_only t (apply_deadline_extension id e t)
perform lib now (revision_accepted id e) t = committed_only t (apply_policy_revision id e t)
perform lib now (restriction_accepted id e) t = committed t (apply_restriction id e t)
perform lib now (claim_accepted id e) t = committed t (apply_claim id e t)
perform lib now (answers rows) t = record t { requests = rows }

unfoldable pub run : Library → List (ℕ × LifecycleStep) → LifecycleTables → LifecycleTables
unfolding perform
run lib [] t = t
run lib ((now, step) ∷ steps) t = run lib steps (perform lib now step t)

module _ (by : ℕ) (t : LifecycleTables) where
  committed-Evolves {ℓ} :
      {A : Type ℓ} (m : Result LifecycleProblem (LifecycleTables × A))
      → ((t' : LifecycleTables) (a : A) → m ≡ ok (t', a) → Evolves by t t')
      → Evolves by t (committed t m)
  committed-Evolves (ok r) h = h r.0 r.1 refl
  committed-Evolves (err e) h = kept refl

  committed_only-Evolves :
      (m : Result LifecycleProblem LifecycleTables)
      → ((t' : LifecycleTables) → m ≡ ok t' → Evolves by t t')
      → Evolves by t (committed_only t m)
  committed_only-Evolves (ok t') h = h t' refl
  committed_only-Evolves (err e) h = kept refl

  pub perform-step :
      (lib : Library) (now : ℕ) (step : LifecycleStep)
      → IsFenced by t
      → now ≤ by
      → Evolves by t (perform lib now step t)
  unfolding perform
  perform-step lib now (expires org head fresh) inv early =
      committed-Evolves _ λ t' a. prepare_expiry-Evolves by t lib now org head fresh
  perform-step lib now (terms c m) inv early =
      committed-Evolves _ λ t' a. prepare_term-Evolves by t lib now c m
  perform-step lib now (starts c) inv early =
      committed-Evolves _ λ t' a. prepare_start-Evolves by t now c
  perform-step lib now (finalizes id) inv early =
      committed_only-Evolves _ λ t'. finalize-Evolves by t lib now id
  perform-step lib now (cancels episode c) inv early =
      committed-Evolves _ λ t' a. prepare_cancel-Evolves by t now episode c
  perform-step lib now (extends episode deadline c) inv early =
      committed-Evolves _ λ t' a. prepare_extension-Evolves by t episode deadline c
  perform-step lib now (revises contract p c) inv early =
      committed-Evolves _ λ t' a. prepare_revision-Evolves by t contract p c
  perform-step lib now (restricts episode related c) inv early =
      committed-Evolves _ λ t' a. prepare_create-Evolves by t episode related c
  perform-step lib now (releases id c) inv early =
      committed-Evolves _ λ t' a. prepare_release-Evolves by t id c
  perform-step lib now (claims org episode sequence) inv early =
      committed-Evolves _ λ t' a. prepare_claim-Evolves by t lib now org episode sequence early
  perform-step lib now (rejects id) inv early = reject-Evolves by t id
  perform-step lib now (expiry_accepted id e) inv early =
      committed_only-Evolves _ λ t'. apply_expiry-Evolves by t inv id e
  perform-step lib now (term_accepted id e) inv early =
      committed_only-Evolves _ λ t'. apply_term-Evolves by t inv id e
  perform-step lib now (start_accepted id e) inv early =
      committed_only-Evolves _ λ t'. apply_start-Evolves by t inv id e
  perform-step lib now (cancel_accepted id e) inv early =
      committed_only-Evolves _ λ t'. apply_cancel-Evolves by t inv id e now
  perform-step lib now (extension_accepted id e) inv early =
      committed_only-Evolves _ λ t'. apply_extension-Evolves by t inv id e
  perform-step lib now (revision_accepted id e) inv early =
      committed_only-Evolves _ λ t'. apply_revision-Evolves by t inv id e
  perform-step lib now (restriction_accepted id e) inv early =
      committed-Evolves _ λ t' a. apply_restriction-Evolves by t inv id e
  perform-step lib now (claim_accepted id e) inv early =
      committed-Evolves _ λ t' a. apply_claim-Evolves by t inv id e
  perform-step lib now (answers rows) inv early = answered rows refl
