-- ===== src/Offboarding/Staging.antt =====
-- src/bluelab/lifecycle: each command that is staged is fenced by the sequence that it expects.
pub mod Unattended
use bluelab_backend_prod.Prelude.{
  ℕ, ◌≤◌, ◌≡◌, ◌∙◌, refl, sym, subst, Bool, true, false, not, Option, none, some, ◌==◌, leb,
  is_some, Result, ok, arith, Option-cases, Result-cases, inl, inr, >>=-cases, or_raise-cases,
  raise_if-cases, if-cases, if-both, ==_iff, ◌>>=◌,
}
use bluelab_backend_prod.Offboarding.{
  RetentionPolicy, Library, LifecycleOperation, LifecycleProblem, LifecycleTables, LifecycleOrder,
  Org, StartData, Term, TermData, find_operation, find_org, is_purging, term_of,
}
use bluelab_backend_prod.Offboarding.Commands.{
  current_org, new_row, reject_term, replayed, stage_command,
}
use bluelab_backend_prod.Offboarding.Claim.{claim_row, is_eligible, prepare_claim}
use bluelab_backend_prod.Offboarding.Episode.{
  cutoff_deadline, finalize_start_offboarding, fix_cutoff, new_cancel, new_extension, new_start,
  prepare_cancel_offboarding, prepare_deadline_extension, prepare_start_offboarding, start_data,
}
use bluelab_backend_prod.Offboarding.Fence.{Evolves, Fenced, is_ready, kept, rewritten, staged}
use bluelab_backend_prod.Offboarding.Renewal.{TermCommand, new_term, prepare_term, term_action}
use bluelab_backend_prod.Offboarding.Restrictions.{
  new_creation, new_release, prepare_create, prepare_release,
}
use bluelab_backend_prod.Offboarding.Revision.{new_revision, prepare_policy_revision}
use bluelab_backend_prod.Offboarding.Terms.{due_term, expiry_row, new_expiry, prepare_expiry}
use bluelab_backend_prod.Prelude.Members.{find-some}
use bluelab_backend_prod.Subjects.{is_pending_op}

module _ (by : ℕ) (t : LifecycleTables) where
  pub Fenced-new :
      (o : LifecycleOperation) (g : Org)
      → find_org o.org t ≡ some g
      → g.lifecycle_sequence ≡ o.expected_sequence
      → is_ready by o.action g ≡ true
      → Fenced by t.orgs o
  Fenced-new o g found here ready x found' pending =
      let same : g ≡ x = ground arith in
      (
        subst (λ y. o.expected_sequence ≤ y.lifecycle_sequence) same (omega arith),
        λ e. subst (λ y. is_ready by o.action y ≡ true) same ready,
      )

  current_org-ok :
      (c : LifecycleOrder) {g : Org}
      → current_org c t ≡ ok g
      → (find_org c.org_id t ≡ some g) × (g.lifecycle_sequence ≡ c.expected_sequence)
  unfolding current_org
  current_org-ok c {g} h = elim (Option-cases (find_org c.org_id t)) [
    | inl unknown ↦ absurd (ground arith)
    | inr (x, found) ↦ (ground arith, ground arith)
  ]

  stage_command-Evolves :
      (c : LifecycleOrder) (same : LifecycleOperation → Bool)
      (new : Result LifecycleProblem LifecycleOperation) {t' : LifecycleTables}
      {o : LifecycleOperation}
      → stage_command c same new t ≡ ok (t', o)
      → ((x : LifecycleOperation) → new ≡ ok x → Fenced by t.orgs x)
      → Evolves by t t'
  unfolding stage_command
  stage_command-Evolves c same new {t'} {o} h fence =
      elim (Option-cases (find_operation c.operation_id t)) [
        | inr (x, known) ↦ elim (Result-cases (replayed c same x)) [
          | inl (y, again) ↦ kept (ground arith)
          | inr (e, refused) ↦ absurd (ground arith)
        ]
        | inl unknown ↦ elim (Result-cases new) [
          | inl (x, added) ↦ staged x (ground arith) (fence x added)
          | inr (e, refused) ↦ absurd (ground arith)
        ]
      ]

  -- An operation that is built for the organisation as the order expects it.
  ordered-Evolves :
      (c : LifecycleOrder) (same : LifecycleOperation → Bool)
      (row : Org → Result LifecycleProblem LifecycleOperation) {t' : LifecycleTables}
      {o : LifecycleOperation}
      → stage_command c same (current_org c t >>= row) t ≡ ok (t', o)
      → ((x : LifecycleOperation) (g : Org)
          → row g ≡ ok x
          → (x.org ≡ c.org_id)
            × (x.expected_sequence ≡ c.expected_sequence)
            × (is_ready by x.action g ≡ true))
      → Evolves by t t'
  ordered-Evolves c same row h fits = stage_command-Evolves c same _ h λ x new.
      >>=-cases (current_org c t) row new λ g current rest.
        let (org, sequence, ready) = fits x g rest in
        let (found, here) = current_org-ok c current in
        Fenced-new x g (rw org found) (here ∙ sym sequence) ready

  pub prepare_start-Evolves :
      (now : ℕ) (c : LifecycleOrder) {t' : LifecycleTables} {o : LifecycleOperation}
      → prepare_start_offboarding now c t ≡ ok (t', o)
      → Evolves by t t'
  unfolding prepare_start_offboarding new_start new_row
  prepare_start-Evolves now c h =
      ordered-Evolves c _ _ h λ x g new. (ground arith, ground arith, ground arith)

  pub prepare_cancel-Evolves :
      (now episode : ℕ) (c : LifecycleOrder) {t' : LifecycleTables} {o : LifecycleOperation}
      → prepare_cancel_offboarding now episode c t ≡ ok (t', o)
      → Evolves by t t'
  unfolding prepare_cancel_offboarding new_cancel new_row
  prepare_cancel-Evolves now episode c h =
      ordered-Evolves c _ _ h λ x g new. (ground arith, ground arith, ground arith)

  pub prepare_extension-Evolves :
      (episode deadline : ℕ) (c : LifecycleOrder) {t' : LifecycleTables} {o : LifecycleOperation}
      → prepare_deadline_extension episode deadline c t ≡ ok (t', o)
      → Evolves by t t'
  unfolding prepare_deadline_extension new_extension new_row
  prepare_extension-Evolves episode deadline c h =
      ordered-Evolves c _ _ h λ x g new. (ground arith, ground arith, ground arith)

  pub prepare_revision-Evolves :
      (contract : ℕ) (p : RetentionPolicy) (c : LifecycleOrder) {t' : LifecycleTables}
      {o : LifecycleOperation}
      → prepare_policy_revision contract p c t ≡ ok (t', o)
      → Evolves by t t'
  unfolding prepare_policy_revision new_revision new_row
  prepare_revision-Evolves contract p c h =
      ordered-Evolves c _ _ h λ x g new. (ground arith, ground arith, ground arith)

  pub prepare_create-Evolves :
      (episode : ℕ) (related : Option ℕ) (c : LifecycleOrder) {t' : LifecycleTables}
      {o : LifecycleOperation}
      → prepare_create episode related c t ≡ ok (t', o)
      → Evolves by t t'
  unfolding prepare_create new_creation new_row
  prepare_create-Evolves episode related c h =
      ordered-Evolves c _ _ h λ x g new. (ground arith, ground arith, ground arith)

  pub prepare_release-Evolves :
      (id : ℕ) (c : LifecycleOrder) {t' : LifecycleTables} {o : LifecycleOperation}
      → prepare_release id c t ≡ ok (t', o)
      → Evolves by t t'
  unfolding prepare_release new_release new_row
  prepare_release-Evolves id c h =
      ordered-Evolves c _ _ h λ x g new. (ground arith, ground arith, ground arith)

  term_action-ready :
      (s : Option Term) (d : TermData) (g : Org)
      → is_purging g.lifecycle_status ≡ false
      → is_ready by (term_action s d) g ≡ true
  term_action-ready none d g h = ground arith
  term_action-ready (some s) d g h = ground arith

  pub prepare_term-Evolves :
      (lib : Library) (now : ℕ) (c : LifecycleOrder) (m : TermCommand) {t' : LifecycleTables}
      {o : LifecycleOperation}
      → prepare_term lib now c m t ≡ ok (t', o)
      → Evolves by t t'
  unfolding prepare_term new_term new_row
  prepare_term-Evolves lib now c m h =
      ordered-Evolves c (λ o. true) _ h
        λ x g new. raise_if-cases (is_purging g.lifecycle_status) _ _ new λ unclaimed rest.
          (ground arith, ground arith, ground (arith, term_action-ready (term_of t g)))
