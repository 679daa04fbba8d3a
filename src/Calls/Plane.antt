-- ===== src/Calls/Plane.antt =====
-- The call plane as a whole: the stores of src/bluelab/calls and the database, and what
-- src/bluelab/calls/sweep.py and src/bluelab/calls/suspension.py both do to end a call. No other
-- client runs between the commands of one call; the races of a single store are in its module.
use bluelab_backend_prod.Prelude.{
  ℕ, Bool, true, false, none, some, List, [], ◌∷◌, ok, err, if◌then◌else◌,
}
use bluelab_backend_prod.Prelude.Equality.{nat_eq}
use bluelab_backend_prod.Valkey.{Keyspace, SortedSet}
use bluelab_backend_prod.Calls.Json.{Fields}
use bluelab_backend_prod.Calls.Database.{Db}
use bluelab_backend_prod.Calls.Egress.{PlaybackFault}
use bluelab_backend_prod.Calls.Interruption.{
  Disposition, never_established, instance_lost, Interruption, interrupt,
}
use bluelab_backend_prod.Calls.Lease.{
  LeaseKey, lease_key_eq, ParticipantKind, candidate, Round, release, pending_lease,
}
use bluelab_backend_prod.Calls.Registry.{CallSession, is_pending}
use bluelab_backend_prod.Calls.Registry.Capacity.{release_slot}
use bluelab_backend_prod.Calls.Registry.Store.{Registry, mark_terminal}

-- The clients of the coordination store, and the lifetimes of what they write.
pub record Stores : Type 1 where
  pub lease_keys : Keyspace LeaseKey Fields
  pub session_keys : Keyspace ℕ Fields
  pub slot_keys : Keyspace ℕ ℕ
  pub sets : SortedSet
  pub lease_seconds : ℕ
  pub ttl_seconds : ℕ

-- `deleted` holds the attempts whose recording was deleted, the last one first.
pub record Plane (st : Stores) : Type 0 where
  pub registry : Registry st.session_keys st.sets st.ttl_seconds
  pub leases : st.lease_keys.Store
  pub slots : st.slot_keys.Store
  pub db : Db
  pub faults : List PlaybackFault
  pub deleted : List ℕ

-- When a step runs: the store's clock in milliseconds, int(time.time()), and the next fresh id.
pub record Tick : Type 0 where
  pub now : ℕ
  pub clock : ℕ
  pub fresh : ℕ

abbrev pub is_candidate : ParticipantKind → Bool
is_candidate candidate = true
is_candidate _ = false

-- NEVER_ESTABLISHED if call.state is PENDING else INSTANCE_LOST
unfoldable pub disposition_of : CallSession → Disposition
disposition_of call = if is_pending call.state then never_established else instance_lost

-- the arguments of `interrupt`
unfoldable pub interruption_of : CallSession → ℕ → Interruption
unfolding disposition_of
interruption_of call attempt = record {
  attempt_id = attempt;
  drill_id = call.drill_id;
  rep_account_id = if is_candidate call.participant_kind then none else some call.participant_id;
  disposition = disposition_of call;
  candidate_id = if is_candidate call.participant_kind then some call.participant_id else none;
  org_id = some call.org_id;
  team_id = some call.team_id;
}

-- if call.attempt_id is not None: interrupt(…)
unfoldable pub interrupt_call : Tick → CallSession → Db → Db
unfolding interruption_of
interrupt_call t call db = elim call.attempt_id [
  | none ↦ db
  | some attempt ↦ (interrupt t.now t.fresh (interruption_of call attempt) db).0
]

module _ (st : Stores) where
  -- `CallLeaseStore.release`, uninterrupted
  abbrev pub quiet_round : ℕ → Round st.lease_keys.Store
  quiet_round now = record { at = now; meanwhile = λ s. s; watch_error = false }

  -- release of the lease and of the slot, and `mark_terminal`; `false` is a raise, of a stored
  -- lease that does not parse
  unfoldable pub free_call : Tick → CallSession → Plane st → Plane st × Bool
  free_call t call w =
      let lease =
        pending_lease call.participant_kind call.participant_id call.call_id call.attempt_id in
      elim (release st.lease_keys st.lease_seconds w.leases (quiet_round t.now ∷ []) lease) [
        | err e ↦ (w, false)
        | ok (leases, released) ↦ (
          record w {
            leases = leases;
            slots =
                (release_slot st.slot_keys st.ttl_seconds w.slots t.now (λ s. s) t.now call.call_id
                  call.capacity_slot).0;
            registry =
                (mark_terminal st.session_keys st.sets st.ttl_seconds w.registry t.now t.clock
                  call).0;
          },
          true,
        )
      ]
