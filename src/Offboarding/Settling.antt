-- ===== src/Offboarding/Settling.antt =====
-- src/bluelab/lifecycle: each application settles its operation, as the fence allows.
pub mod Episodes
use bluelab_backend_prod.Prelude.{
  List, [], ◌∷◌, ◌++◌, map, ap, sym, same_id, or_raise, raise_if, ◌>>=◌, ◌>>◌, ℕ, ◌≡◌, ◌∙◌, refl,
  subst, Bool, true, false, ◌||◌, not, some, ◌==◌, leb, find, is_none, if◌then◌else◌, Result, ok,
  >>=-cases, or_raise-cases, raise_if-cases, ok-injective, if-cases, same_id, arith, Bool-cases,
  inl, inr,
}
use bluelab_backend_prod.Offboarding.{
  DeletionRestriction, LifecycleAction, confirm_term, renew_term, expire_term, start, cancel,
  extend, policy_revision, create_restriction, release_restriction, claim, history_unverified,
  LifecycleEvent, LifecycleOperation, LifecycleProblem, LifecycleTables, Org, StartData, Term,
  TermData, PurgeRun, is_active, is_offboarding, is_purging, find_operation, find_org, term_of,
}
use bluelab_backend_prod.Offboarding.Commands.{accepted_org, is_accepted, accept_operation}
use bluelab_backend_prod.Offboarding.Claim.{
  apply_claim, run_of, claim_blocker, claimed, claimed_run, existing_run, is_due,
}
use bluelab_backend_prod.Offboarding.Episode.{
  apply_cancel_offboarding, apply_deadline_extension, apply_start_offboarding, extended,
  extension_data, is_cancel, is_cancellable, restored, start_data, offboarded,
}
use bluelab_backend_prod.Offboarding.Fence.{
  Entered, Grows, Grows-same, unentered, Change, Evolves, IsFenced, accepted_org-ok, is_ready, kept,
  staged, rewritten, settled, moved_to, ready-claim, ready-extension, ready-term,
  accept_operation-Evolves,
}
use bluelab_backend_prod.Offboarding.Renewal.{add_term, apply_term, served}
use bluelab_backend_prod.Offboarding.Restrictions.{
  is_restriction_of, apply_restriction, is_create, is_release, write_restriction,
}
use bluelab_backend_prod.Offboarding.Restrictions.Kept.{write_restriction-Grows}
use bluelab_backend_prod.Offboarding.Revision.{apply_policy_revision, revision_data}
use bluelab_backend_prod.Offboarding.Terms.{apply_expiry, expired, expiry_data, term_data}
use bluelab_backend_prod.Subjects.{is_applied_op, update_first}

-- A call whose operation was applied before changes nothing; otherwise it is accepted now.
pub unless_applied :
    (P : LifecycleTables → Type 0) (done : Bool) {t t' : LifecycleTables}
    {m : Result LifecycleProblem LifecycleTables}
    → (if done then ok t else m) ≡ ok t'
    → P t
    → (m ≡ ok t' → P t')
    → P t'
unless_applied P done {t} {t'} {m} h same fresh = elim (Bool-cases done) [
  | inl yes' ↦ subst P (ground arith) same
  | inr no' ↦ fresh (ground arith)
]

-- The result of a call whose operation was applied before, or is accepted now.
module _ (by : ℕ) (t : LifecycleTables) (inv : IsFenced by t) (id : ℕ) (e : LifecycleEvent) where
  pub accepted-Evolves :
      (o : LifecycleOperation) (f : Org → Org) {g : Org} {t' : LifecycleTables}
      → find_operation id t ≡ some o
      → accepted_org o e t ≡ ok g
      → ((x : Org) → (f x).id ≡ x.id)
      → (is_ready by o.action g ≡ true → Change by t g (moved_to e f g))
      → t'.orgs ≡ (accept_operation o e f t).orgs
      → t'.operations ≡ (accept_operation o e f t).operations
      → Entered t t'
      → Evolves by t t'
  accepted-Evolves o f {g} known accepted same change orgs ops entered =
      let (pending, next, found, here) = accepted_org-ok o e t accepted in
      accept_operation-Evolves by t id o e f g inv known pending next found here same change orgs
        ops entered

  expired-Change :
      (o : LifecycleOperation) (d : ℕ × ℕ × ℕ) (g : Org)
      → is_active g.lifecycle_status ≡ true
      → Change by t g (moved_to e (expired o d.0 d.1 d.2) g)
  unfolding expired
  expired-Change o d g h = ground arith

  pub apply_expiry-Evolves : {t' : LifecycleTables} → apply_expiry id e t ≡ ok t' → Evolves by t t'
  unfolding apply_expiry expired
  apply_expiry-Evolves {t'} h = or_raise-cases (find_operation id t) _ _ h λ o known h1.
      or_raise-cases (expiry_data o.action) _ _ h1 λ d expiry h2.
        unless_applied (Evolves by t) (is_applied_op o.status) h2 (kept refl) λ h3.
          >>=-cases (accepted_org o e t) _ h3 λ g accepted h4.
            or_raise-cases (term_of t g) _ _ h4 λ s current h5.
              raise_if-cases _ _ _ h5 λ checked h6. subst (Evolves by t) (ok-injective h6) (
                accepted-Evolves o (expired o d.0 d.1 d.2)
                  {t' = accept_operation o e (expired o d.0 d.1 d.2) t} known accepted (λ x. refl)
                  (λ ready. expired-Change o d g (ground arith)) refl refl
                  (unentered refl refl refl refl))

  served-Change :
      (d : TermData) (g : Org)
      → is_purging g.lifecycle_status ≡ false
      → Change by t g (moved_to e (served d) g)
  unfolding served
  served-Change d g h = ground arith

  pub apply_term-Evolves : {t' : LifecycleTables} → apply_term id e t ≡ ok t' → Evolves by t t'
  unfolding apply_term add_term served
  apply_term-Evolves {t'} h = or_raise-cases (find_operation id t) _ _ h λ o known h1.
      unless_applied (Evolves by t) (is_applied_op o.status) h1 (kept refl) λ h2.
        >>=-cases (accepted_org o e t) _ h2 λ g accepted h3.
          or_raise-cases (term_data o.action) _ _ h3 λ d term h4.
            raise_if-cases (is_none e.actor_id) _ _ h4 λ checked h5.
              subst (Evolves by t) (ok-injective h5) (
                accepted-Evolves o (served d)
                  {t' = add_term o d (accept_operation o e (served d) t)} known accepted (λ x. refl)
                  (λ ready. served-Change d g (ready-term by o.action g term ready)) refl refl
                  (record {
                    terms = (_, refl);
                    runs = Grows-same refl;
                    restrictions = Grows-same refl;
                    requests = refl;
                  }))

  unmoved-Change : (g : Org) → Change by t g (moved_to e (λ x. x) g)
  unmoved-Change g = ground arith

  pub apply_revision-Evolves :
      {t' : LifecycleTables} → apply_policy_revision id e t ≡ ok t' → Evolves by t t'
  unfolding apply_policy_revision
  apply_revision-Evolves {t'} h = or_raise-cases (find_operation id t) _ _ h λ o known h1.
      or_raise-cases (revision_data o.action) _ _ h1 λ d revision h2.
        unless_applied (Evolves by t) (is_applied_op o.status) h2 (kept refl) λ h3.
          >>=-cases (accepted_org o e t) _ h3 λ g accepted h4.
            raise_if-cases (is_none e.actor_id) _ _ h4 λ by_one h5.
              accepted-Evolves o (λ x. x) known accepted (λ x. refl) (λ ready. unmoved-Change g)
                (ground arith) (ground arith)
                (unentered (ground arith) (ground arith) (ground arith) (ground arith))

  pub apply_restriction-Evolves :
      {t' : LifecycleTables} {i : ℕ} → apply_restriction id e t ≡ ok (t', i) → Evolves by t t'
  unfolding apply_restriction
  apply_restriction-Evolves {t'} {i} h = or_raise-cases (find_operation id t) _ _ h λ o known h1.
      raise_if-cases (not (is_create o.action || is_release o.action)) _ _ h1 λ is_one h2.
        or_raise-cases o.restriction _ _ h2 λ r named h3.
          if-cases (is_applied_op o.status) h3 (λ done same. kept (ground arith))
            λ fresh h4. >>=-cases (accepted_org o e t) _ h4 λ g accepted h5.
              raise_if-cases (is_none e.actor_id) _ _ h5 λ by_one h6.
                >>=-cases (write_restriction o r g t) _ h6 λ rows written h7.
                  accepted-Evolves o (λ x. x) known accepted (λ x. refl) (λ ready. unmoved-Change g)
                    (ground arith) (ground arith)
                    (record {
                      terms = Grows-same (ground arith);
                      runs = Grows-same (ground arith);
                      restrictions =
                          subst
                            (λ xs.
                              Grows (map DeletionRestriction.id t.restrictions)
                                (map DeletionRestriction.id xs))
                            (ground arith) (write_restriction-Grows t o r g written);
                      requests = ground arith;
                    })

  claimed-Change :
      (g : Org)
      → is_offboarding g.lifecycle_status ≡ true
      → is_due by g ≡ true
      → claim_blocker g.id t ≡ false
      → Change by t g (moved_to e claimed g)
  unfolding claimed
  claimed-Change g h due free = ground arith

  pub apply_claim-Evolves :
      {t' : LifecycleTables} {run : PurgeRun} → apply_claim id e t ≡ ok (t', run) → Evolves by t t'
  unfolding apply_claim existing_run is_accepted claimed
  apply_claim-Evolves {t'} {run} h = or_raise-cases (find_operation id t) _ _ h λ o known h1.
      or_raise-cases (claimed_run o.action) _ _ h1 λ r claims h2.
        if-cases (is_applied_op o.status) h2
          (λ done h3.
            or_raise-cases (find (λ x. x.id == r) t.runs) _ _ h3 λ x old same. kept (ground arith))
          λ fresh h3. raise_if-cases (not (is_accepted o e)) _ _ h3 λ accepted h4.
            or_raise-cases (find_org o.org t) _ _ h4 λ g found h5.
              raise_if-cases
                (not (is_offboarding g.lifecycle_status)
                  || not (same_id g.offboarding_id o.episode)
                  || not (g.lifecycle_sequence == o.expected_sequence)
                  || claim_blocker g.id t)
                _ _ h5
                λ checked h6.
                  accept_operation-Evolves by t id o e claimed g inv known (ground arith)
                    (ground arith) found (ground arith) (λ x. refl)
                    (λ ready.
                      claimed-Change g (ground arith) (ready-claim by o.action g claims ready)
                        (ground arith))
                    (ground arith) (ground arith)
                    (record {
                      terms = Grows-same (ground arith);
                      runs = (run_of r o g ∷ [], ground arith);
                      restrictions = Grows-same (ground arith);
                      requests = ground arith;
                    })
