-- ===== src/Calls/Lease/Race.antt =====
-- src/bluelab/calls/lease.py: `renew` reads and writes in two commands.
use bluelab_backend_prod.Prelude.{ℕ, ◌≤◌, ◌<◌, ◌≡◌, true, none, some, ok, arith, ==_refl}
use bluelab_backend_prod.Valkey.{Keyspace}
use bluelab_backend_prod.Calls.Json.{Fields}
use bluelab_backend_prod.Calls.Lease.{
  CallLease, LeaseKey, lease_key_eq, same_key_iff, encode, acquire, current, renew,
}
use bluelab_backend_prod.Calls.Lease.Codec.{decode-encode}
use bluelab_backend_prod.Calls.Lease.Exclusion.{key_of, holds-stored}

module _ (ks : Keyspace LeaseKey Fields) (ttl : ℕ) where
  open ks use {Store, get, set, delete}

  -- A lease that expires between the two commands of its renewal: another call of the same
  -- participant acquires the lease, and the renewal then succeeds too and replaces it, so both
  -- calls have been told that they hold it.
  pub renew_overwrites :
      (s : Store) (read taken written : ℕ) (l m : CallLease)
      → 0 < ttl
      → read ≤ taken
      → taken ≤ written
      → key_of m ≡ key_of l
      → get s read (key_of l) ≡ some (encode l)
      → get s taken (key_of l) ≡ none
      → ((acquire ks ttl s taken m).1 ≡ true)
        × ((s' : Store) × (renew ks ttl s read (λ u. (acquire ks ttl u taken m).0) written l
              ≡ ok (s', true))
            × (current ks ttl s' written m.participant_kind m.participant_id ≡ ok (some l)))
  unfolding acquire renew current
  renew_overwrites s read taken written l m long a b same mine gone = (
    ground arith,
    (
      set (acquire ks ttl s taken m).0 written (key_of l) (encode l) ttl,
      ground (arith, holds-stored ks ttl s read l l mine, ==_refl l.call_id),
      ground (
        arith,
        ks.get-set (acquire ks ttl s taken m).0 written written (key_of l) (key_of m) (encode l)
            ttl,
        same_key_iff (key_of l) (key_of m),
        decode-encode l,
      ),
    ),
  )
