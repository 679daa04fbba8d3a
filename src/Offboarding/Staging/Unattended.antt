-- ===== src/Offboarding/Staging/Unattended.antt =====
-- src/bluelab/lifecycle: what is staged or changed without an order: the expiry of a term, the claim
-- of a purge, the cutoff of a start and the rejection of a term.
use bluelab_backend_prod.Prelude.{
  ℕ, ◌≤◌, ◌≡◌, refl, sym, subst, not, Option, some, ◌==◌, leb, is_some, ok, arith, Option-cases,
  Result-cases, inl, inr, or_raise-cases, raise_if-cases, if-cases, if-both, ==_iff,
}
use bluelab_backend_prod.Offboarding.{
  Library, LifecycleOperation, LifecycleTables, Org, StartData, Term, find_operation, find_org,
  term_of,
}
use bluelab_backend_prod.Offboarding.Commands.{reject_term}
use bluelab_backend_prod.Offboarding.Claim.{claim_row, is_eligible, prepare_claim}
use bluelab_backend_prod.Offboarding.Episode.{
  cutoff_deadline, finalize_start_offboarding, fix_cutoff, start_data,
}
use bluelab_backend_prod.Offboarding.Fence.{Evolves, Fenced, kept, rewritten, staged}
use bluelab_backend_prod.Offboarding.Terms.{due_term, expiry_row, new_expiry, prepare_expiry}
use bluelab_backend_prod.Prelude.Members.{find-some}
use bluelab_backend_prod.Subjects.{is_pending_op}
use bluelab_backend_prod.Offboarding.Staging.{Fenced-new}

module _ (by : ℕ) (t : LifecycleTables) where
  -- The organisation is found by its own id.
  find_again : (org : ℕ) (g : Org) → find_org org t ≡ some g → find_org g.id t ≡ some g
  find_again org g found =
      subst (λ k. find_org k t ≡ some g)
        (sym ((==_iff g.id org).0 (find-some (λ x. x.id == org) t.orgs found))) found

  new_expiry-Fenced :
      (lib : Library) (org head fresh : ℕ) (g : Org) (s : Term) (x : LifecycleOperation)
      → find_org org t ≡ some g
      → new_expiry lib head fresh g s t ≡ ok x
      → Fenced by t.orgs x
  unfolding new_expiry expiry_row
  new_expiry-Fenced lib org head fresh g s x found h =
      let found' = find_again org g found in
      let scoped : x.org ≡ g.id = ground arith in
      Fenced-new by t x g (rw scoped found') (ground arith) (ground arith)

  fix_cutoff-Fenced :
      (now deadline : ℕ) (d : StartData) (s : Term) (o : LifecycleOperation)
      → Fenced by t.orgs o
      → Fenced by t.orgs (fix_cutoff now deadline d s o)
  unfolding fix_cutoff
  fix_cutoff-Fenced now deadline d s o fence =
      if-both (Fenced by t.orgs) (leb s.ends_at now) (λ g found waits. absurd (cc))
        (λ g found waits. ((fence g found waits).0, λ e. refl))

  pub prepare_expiry-Evolves :
      (lib : Library) (now org head fresh : ℕ) {t' : LifecycleTables}
      {o : Option LifecycleOperation}
      → prepare_expiry lib now org head fresh t ≡ ok (t', o)
      → Evolves by t t'
  unfolding prepare_expiry
  prepare_expiry-Evolves lib now org head fresh {t'} {o} h = elim (Option-cases (find_org org t)) [
    | inl unknown ↦ kept (ground arith)
    | inr (g, found) ↦ elim (Option-cases (due_term now t g)) [
      | inl early ↦ kept (ground arith)
      | inr (s, due) ↦ elim (Option-cases (find_operation (lib.expiry_id org s.id) t)) [
        | inr (x, known) ↦ kept (ground arith)
        | inl new ↦ elim (Result-cases (new_expiry lib head fresh g s t)) [
          | inr (e, refused) ↦ absurd (ground arith)
          | inl (x, added) ↦
              staged x (ground arith) (new_expiry-Fenced lib org head fresh g s x found added)
        ]
      ]
    ]
  ]

  pub prepare_claim-Evolves :
      (lib : Library) (now org episode sequence : ℕ) {t' : LifecycleTables} {o : LifecycleOperation}
      → now ≤ by
      → prepare_claim lib now org episode sequence t ≡ ok (t', o)
      → Evolves by t t'
  unfolding prepare_claim claim_row is_eligible
  prepare_claim-Evolves lib now org episode sequence {t'} {o} early h =
      elim (Option-cases (find_operation (lib.claim_id org episode) t)) [
        | inr (x, known) ↦ kept (ground arith)
        | inl new ↦ elim (Option-cases (find_org org t)) [
          | inl unknown ↦ absurd (ground arith)
          | inr (g, found) ↦ staged (claim_row lib episode sequence g) (ground arith) (
              Fenced-new by t (claim_row lib episode sequence g) g (find_again org g found)
                (ground arith) (ground arith))
        ]
      ]

  pub finalize-Evolves :
      (lib : Library) (now id : ℕ) {t' : LifecycleTables}
      → finalize_start_offboarding lib now id t ≡ ok t'
      → Evolves by t t'
  unfolding finalize_start_offboarding
  finalize-Evolves lib now id {t'} h = or_raise-cases (find_operation id t) _ _ h λ o known h1.
      or_raise-cases (start_data o.action) _ _ h1 λ d is_one h2.
        raise_if-cases (not (is_pending_op o.status)) _ _ h2 λ waits h3.
          if-cases (is_some d.cutoff) h3 (λ fixed same. kept (ground arith))
            λ open' h4. or_raise-cases (find_org o.org t) _ _ h4 λ g found h5.
              or_raise-cases (term_of t g) _ _ h5 λ s current h6.
                elim (Result-cases (cutoff_deadline lib now d s)) [
                  | inr (e, overflows) ↦ absurd (ground arith)
                  | inl (deadline, fits) ↦
                      rewritten id (fix_cutoff now deadline d s) (ground arith)
                        (λ x y. fix_cutoff-Fenced now deadline d s x)
                ]

  pub reject-Evolves : (id : ℕ) → Evolves by t (reject_term id t)
  unfolding reject_term
  reject-Evolves id = rewritten id _ refl λ o known fence g found waits. ground (arith, fence g)
