-- ===== src/Calls/Lease/Examples.antt =====
-- Runs of src/bluelab/calls/lease.py that meet the hypotheses of its theorems: one account that
-- calls as a rep and as an author.
use bluelab_backend_prod.Prelude.{
  ◌+◌, ◌*◌, ◌≡◌, refl, Bool, true, false, not, ◌&&◌, none, some, [], ◌∷◌, ltb, if◌then◌else◌, ok,
  arith,
}
use bluelab_backend_prod.Valkey.{Keyspace}
use bluelab_backend_prod.Valkey.Memory.{memory, nothing}
use bluelab_backend_prod.Calls.Json.{Fields}
use bluelab_backend_prod.Calls.Lease.{
  CallLease, LeaseKey, lease_key_eq, rep, author, pending, acquire, current, renew, release, Round,
  encode, account_key,
}
use bluelab_backend_prod.Calls.Lease.Exclusion.{
  is_same_participant, IsStored, acquire-acquire, release_terminates,
}
use bluelab_backend_prod.Calls.Lease.Race.{renew_overwrites}

abbrev cache : Keyspace LeaseKey Fields
cache = memory LeaseKey Fields

-- the same account, as a rep and as an author
abbrev calls_first : CallLease
calls_first = record {
  participant_kind = rep;
  participant_id = 1;
  call_id = 10;
  attempt_id = some 5;
  state = pending;
}

abbrev calls_next : CallLease
calls_next = record calls_first { participant_kind = author; call_id = 11; attempt_id = none }

abbrev empty : cache.Store
empty = nothing LeaseKey Fields

-- the first call's lease, written at 1000
abbrev leased : cache.Store
leased = cache.set empty 1000 (account_key 1) (encode calls_first) 120

abbrev quiet_round : Round cache.Store
quiet_round = record { at = 3000; meanwhile = λ s. s; watch_error = false }

abbrev lost_round : Round cache.Store
lost_round = record { at = 2000; meanwhile = λ s. s; watch_error = true }

acquire-acquire_example :
    (acquire cache 120 (acquire cache 120 empty 1000 calls_first).0 5000 calls_next).1 ≡ (
      if is_same_participant calls_first calls_next && (acquire cache 120 empty 1000 calls_first).1
      then not (ltb 5000 (1000 + 1000 * 120))
      else (acquire cache 120 empty 5000 calls_next).1)
acquire-acquire_example =
    acquire-acquire cache 120 empty 1000 5000 calls_first calls_next (omega arith)

empty-IsStored : IsStored cache 120 0 empty
empty-IsStored t k raw h p = cc

release_terminates_example :
    (s' : cache.Store) × (done : Bool) × (release cache 120 empty
        (lost_round ∷ quiet_round ∷ [])
        calls_first
      ≡ ok (s', some done))
release_terminates_example =
    release_terminates cache 120 empty 0 (lost_round ∷ quiet_round ∷ []) calls_first empty-IsStored
      ((omega arith, λ u h. h), ((omega arith, λ u h. h), tt)) refl

renew_overwrites_example :
    ((acquire cache 120 leased 121000 calls_next).1 ≡ true)
    × ((s' : cache.Store) × (renew cache 120 leased 120999
            (λ u. (acquire cache 120 u 121000 calls_next).0)
            121001
            calls_first
          ≡ ok (s', true))
        × (current cache 120 s' 121001 author 1 ≡ ok (some calls_first)))
renew_overwrites_example =
    renew_overwrites cache 120 leased 120999 121000 121001 calls_first calls_next (omega arith)
      (omega arith) (omega arith) refl refl refl
