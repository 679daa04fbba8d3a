-- ===== src/Offboarding/Settling/Episodes.antt =====
-- src/bluelab/lifecycle/service.py: the start, the cancellation and the extension of an offboarding
-- settle their operations.
use bluelab_backend_prod.Prelude.{
  ℕ, ◌≡◌, refl, subst, true, not, some, leb, ok, >>=-cases, or_raise-cases, raise_if-cases,
  ok-injective, same_id, arith,
}
use bluelab_backend_prod.Offboarding.{
  LifecycleEvent, LifecycleOperation, LifecycleTables, Org, StartData, Term, is_active,
  is_offboarding, find_operation, term_of,
}
use bluelab_backend_prod.Offboarding.Commands.{accept_operation, accepted_org}
use bluelab_backend_prod.Offboarding.Episode.{
  apply_cancel_offboarding, apply_deadline_extension, apply_start_offboarding, extended,
  extension_data, is_cancel, is_cancellable, restored, start_data, offboarded,
}
use bluelab_backend_prod.Offboarding.Fence.{
  unentered, Change, Evolves, IsFenced, kept, moved_to, ready-extension,
}
use bluelab_backend_prod.Subjects.{is_applied_op}
use bluelab_backend_prod.Offboarding.Settling.{accepted-Evolves, unless_applied}

module _ (by : ℕ) (t : LifecycleTables) (inv : IsFenced by t) (id : ℕ) (e : LifecycleEvent) where
  offboarded-Change :
      (o : LifecycleOperation) (d : StartData) (cutoff deadline : ℕ) (g : Org)
      → is_active g.lifecycle_status ≡ true
      → Change by t g (moved_to e (offboarded o e d cutoff deadline) g)
  unfolding offboarded
  offboarded-Change o d cutoff deadline g h = ground arith

  pub apply_start-Evolves :
      {t' : LifecycleTables} → apply_start_offboarding id e t ≡ ok t' → Evolves by t t'
  unfolding apply_start_offboarding offboarded
  apply_start-Evolves {t'} h = or_raise-cases (find_operation id t) _ _ h λ o known h1.
      or_raise-cases (start_data o.action) _ _ h1 λ d start_of h2.
        unless_applied (Evolves by t) (is_applied_op o.status) h2 (kept refl) λ h3.
          >>=-cases (accepted_org o e t) _ h3 λ g accepted h4.
            or_raise-cases d.cutoff _ _ h4 λ fixed cut h5.
              or_raise-cases (term_of t g) _ _ h5 λ s current h6.
                raise_if-cases _ _ _ h6 λ checked h7. subst (Evolves by t) (ok-injective h7) (
                  accepted-Evolves by t inv id e o (offboarded o e d fixed.0 fixed.1)
                    {t' = accept_operation o e (offboarded o e d fixed.0 fixed.1) t} known accepted
                    (λ x. refl) (λ ready. offboarded-Change o d fixed.0 fixed.1 g (ground arith))
                    refl refl (unentered refl refl refl refl))

  restored-Change :
      (s : Term) (g : Org)
      → is_offboarding g.lifecycle_status ≡ true
      → Change by t g (moved_to e (restored s) g)
  unfolding restored
  restored-Change s g h = ground arith

  pub apply_cancel-Evolves :
      (now : ℕ) {t' : LifecycleTables}
      → apply_cancel_offboarding now id e t ≡ ok t'
      → Evolves by t t'
  unfolding apply_cancel_offboarding restored is_cancellable
  apply_cancel-Evolves now {t'} h = or_raise-cases (find_operation id t) _ _ h λ o known h1.
      raise_if-cases (not (is_cancel o.action)) _ _ h1 λ is_one h2.
        unless_applied (Evolves by t) (is_applied_op o.status) h2 (kept refl) λ h3.
          >>=-cases (accepted_org o e t) _ h3 λ g accepted h4.
            or_raise-cases (term_of t g) _ _ h4 λ s current h5.
              raise_if-cases _ _ _ h5 λ checked h6. subst (Evolves by t) (ok-injective h6) (
                accepted-Evolves by t inv id e o (restored s)
                  {t' = accept_operation o e (restored s) t} known accepted (λ x. refl)
                  (λ ready. restored-Change s g (ground arith)) refl refl
                  (unentered refl refl refl refl))

  extended-Change :
      (old deadline : ℕ) (g : Org)
      → is_offboarding g.lifecycle_status ≡ true
      → same_id g.purge_eligible_at (some old) ≡ true
      → leb old deadline ≡ true
      → Change by t g (moved_to e (extended deadline) g)
  unfolding extended
  extended-Change old deadline g h at later = ground arith

  pub apply_extension-Evolves :
      {t' : LifecycleTables} → apply_deadline_extension id e t ≡ ok t' → Evolves by t t'
  unfolding apply_deadline_extension extended
  apply_extension-Evolves {t'} h = or_raise-cases (find_operation id t) _ _ h λ o known h1.
      or_raise-cases (extension_data o.action) _ _ h1 λ d extension h2.
        unless_applied (Evolves by t) (is_applied_op o.status) h2 (kept refl) λ h3.
          >>=-cases (accepted_org o e t) _ h3 λ g accepted h4. raise_if-cases _ _ _ h4 λ checked h5.
            subst (Evolves by t) (ok-injective h5) (
              accepted-Evolves by t inv id e o (extended d.1)
                {t' = accept_operation o e (extended d.1) t} known accepted (λ x. refl)
                (λ ready.
                  extended-Change d.0 d.1 g (ground arith) (ground arith)
                    (ready-extension by o.action g extension ready))
                refl refl (unentered refl refl refl refl))
