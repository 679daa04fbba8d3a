-- ===== src/Calls/Lease/Quiet.antt =====
-- src/bluelab/calls/lease.py: a release that no other client interrupts.
use bluelab_backend_prod.Prelude.{
  ℕ, ◌≤◌, ◌≡◌, Bool, true, false, some, [], ◌∷◌, ok, arith, inl, inr, Bool-cases,
}
use bluelab_backend_prod.Valkey.{Keyspace}
use bluelab_backend_prod.Calls.Json.{Fields}
use bluelab_backend_prod.Calls.Lease.{CallLease, LeaseKey, lease_key_eq, release}
use bluelab_backend_prod.Calls.Lease.Exclusion.{key_of, IsStored, holds_total}

module _ (ks : Keyspace LeaseKey Fields) (ttl : ℕ) where
  open ks use {Store, delete}

  -- In an uninterrupted round a release answers, and what stays stored is leases.
  pub release-quiet :
      (s : Store) (now at : ℕ) (l : CallLease)
      → IsStored ks ttl now s
      → now ≤ at
      → (s' : Store) × (mine : Bool) × (release ks ttl s
            (record { at = at; meanwhile = λ u. u; watch_error = false } ∷ [])
            l
          ≡ ok (s', some mine))
        × IsStored ks ttl at s'
  unfolding release
  release-quiet s now at l h after =
      let (mine, held) = holds_total ks ttl s now at l h after in
      elim (Bool-cases mine) [
        | inl own ↦ (
          delete s at (key_of l),
          true,
          ground arith,
          λ t k raw later found.
              h t k raw (omega arith) (ground (arith, ks.get-delete s at t (key_of l) k later)),
        )
        | inr other ↦ (s, false, ground arith, λ t k raw later found. h t k raw (omega arith) found)
      ]
