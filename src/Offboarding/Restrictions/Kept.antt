-- ===== src/Offboarding/Restrictions/Kept.antt =====
-- src/bluelab/lifecycle/restrictions.py: a deletion restriction that is on record stays on record.
use bluelab_backend_prod.Prelude.{
  List, [], ◌∷◌, ◌++◌, map, ap, sym, same_id, or_raise, raise_if, ◌>>=◌, ◌>>◌, ℕ, ◌≡◌, ◌∙◌, refl,
  Bool, false, not, find, ok, or_raise-cases, raise_if-cases, ok-injective, arith,
}
use bluelab_backend_prod.Offboarding.{
  DeletionRestriction, LifecycleAction, confirm_term, renew_term, expire_term, start, cancel,
  extend, policy_revision, create_restriction, release_restriction, claim, history_unverified,
  LifecycleOperation, LifecycleTables, Org,
}
use bluelab_backend_prod.Offboarding.Fence.{Grows, Grows-same}
use bluelab_backend_prod.Offboarding.Restrictions.{is_restriction_of, write_restriction}
use bluelab_backend_prod.Subjects.{update_first}

module _ (t : LifecycleTables) where
  ids-update_first :
      (p : DeletionRestriction → Bool) (rows : List DeletionRestriction)
      → map DeletionRestriction.id (update_first p (λ x. record x { is_active = false }) rows)
        ≡ map DeletionRestriction.id rows
  unfolding update_first
  ids-update_first p [] = refl
  ids-update_first p (x ∷ rows) = ground (arith, ids-update_first p rows)

  ids-append :
      (rows : List DeletionRestriction) (new : DeletionRestriction)
      → map DeletionRestriction.id (rows ++ new ∷ [])
        ≡ map DeletionRestriction.id rows ++ new.id ∷ []
  ids-append [] new = refl
  ids-append (x ∷ rows) new = ap (λ ys. x.id ∷ ys) (ids-append rows new)

  -- The release of a restriction, which is what an operation other than a creation writes.
  release-Grows :
      (r : ℕ) (g : Org) {rows : List DeletionRestriction}
      → (or_raise (find (is_restriction_of g.id r) t.restrictions) history_unverified >>= λ x.
          raise_if (not x.is_active) history_unverified
          >> ok (
              update_first
                (is_restriction_of g.id r)
                (λ y. record y { is_active = false })
                t.restrictions))
        ≡ ok rows
      → Grows (map DeletionRestriction.id t.restrictions) (map DeletionRestriction.id rows)
  release-Grows r g h =
      or_raise-cases (find (is_restriction_of g.id r) t.restrictions) _ _ h λ x found h1.
        raise_if-cases (not x.is_active) _ _ h1 λ active' h2. Grows-same (
          ap (map DeletionRestriction.id) (sym (ok-injective h2))
          ∙ ids-update_first (is_restriction_of g.id r) t.restrictions)

  -- Restrictions are added and released, never removed.
  pub write_restriction-Grows :
      (o : LifecycleOperation) (r : ℕ) (g : Org) {rows : List DeletionRestriction}
      → write_restriction o r g t ≡ ok rows
      → Grows (map DeletionRestriction.id t.restrictions) (map DeletionRestriction.id rows)
  unfolding write_restriction
  write_restriction-Grows o r g {rows} = written_by o.action
    where
      written_by :
          (a : LifecycleAction)
          → write_restriction (record o { action = a }) r g t ≡ ok rows
          → Grows (map DeletionRestriction.id t.restrictions) (map DeletionRestriction.id rows)
      written_by (create_restriction related) h =
          raise_if-cases (not (same_id g.offboarding_id o.episode)) _ _ h λ current h1. (
            r ∷ [],
            ap (map DeletionRestriction.id) (sym (ok-injective h1)) ∙ ids-append t.restrictions _,
          )
      written_by (confirm_term d) h = release-Grows r g h
      written_by (renew_term d) h = release-Grows r g h
      written_by (expire_term a b c) h = release-Grows r g h
      written_by (start d) h = release-Grows r g h
      written_by (cancel a) h = release-Grows r g h
      written_by (extend a b) h = release-Grows r g h
      written_by (policy_revision a p) h = release-Grows r g h
      written_by release_restriction h = release-Grows r g h
      written_by (claim a) h = release-Grows r g h
