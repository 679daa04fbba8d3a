-- ===== src/Calls/Sweep/Recovery.antt =====
-- src/bluelab/calls/sweep.py: what a run of the sweep leaves of a lost call.
use bluelab_backend_prod.Prelude.{
  ℕ, ◌+◌, ◌≤◌, ◌≡◌, refl, true, false, none, some, List, [], ◌∷◌, ◌++◌, any, arith, inl, inr,
  Option-cases, Bool-cases, ==_refl,
}
use bluelab_backend_prod.Prelude.Equality.{nat_eq}
use bluelab_backend_prod.Calls.Database.{Db}
use bluelab_backend_prod.Calls.Interruption.{is_live}
use bluelab_backend_prod.Calls.Interruption.Dead.{interrupt-ended, interrupt-dead}
use bluelab_backend_prod.Calls.Lease.{CallLease, lease_key_eq, pending_lease}
use bluelab_backend_prod.Calls.Lease.Exclusion.{IsStored}
use bluelab_backend_prod.Calls.Lease.Quiet.{release-quiet}
use bluelab_backend_prod.Calls.Plane.{
  Stores, Plane, Tick, interruption_of, interrupt_call, free_call,
}
use bluelab_backend_prod.Calls.Registry.{CallSession, is_terminal}
use bluelab_backend_prod.Calls.Registry.Store.Due.{mark_terminal-tables}
use bluelab_backend_prod.Calls.Sweep.{recover_call, recover_all}

interrupt_call-ended :
    (t : Tick) (call : CallSession) (db : Db) (a : ℕ)
    → call.attempt_id ≡ some a
    → any (is_live a) (interrupt_call t call db).attempts ≡ false
unfolding interrupt_call interruption_of
interrupt_call-ended t call db a h =
    ground (arith, interrupt-ended t.now t.fresh (interruption_of call a) db)

interrupt_call-dead :
    (t : Tick) (call : CallSession) (db : Db) (b : ℕ)
    → any (is_live b) db.attempts ≡ false
    → any (is_live b) (interrupt_call t call db).attempts ≡ false
unfolding interrupt_call
interrupt_call-dead t call db b h = elim (Option-cases call.attempt_id) [
  | inl nothing ↦ ground arith
  | inr (a, e) ↦ ground (arith, interrupt-dead t.now t.fresh b (interruption_of call a) db h)
]

module _ (st : Stores) where
  open st use {lease_keys, session_keys, sets}

  abbrev lease_of : CallSession → CallLease
  lease_of c = pending_lease c.participant_kind c.participant_id c.call_id c.attempt_id

  free_call-frees :
      (t : Tick) (call : CallSession) (now : ℕ) (w : Plane st)
      → IsStored lease_keys st.lease_seconds now w.leases
      → now ≤ t.now
      → let ran = free_call st t call w in
        (ran.1 ≡ true)
        × (ran.0.db ≡ w.db)
        × (ran.0.registry.recovery ≡ sets.zrem w.registry.recovery call.call_id)
        × IsStored lease_keys st.lease_seconds t.now ran.0.leases
  unfolding free_call
  free_call-frees t call now w h after =
      let (s', mine, e, stays) =
        release-quiet lease_keys st.lease_seconds w.leases now t.now (lease_of call) h after in
      rw (free_call, e)
        (
          refl,
          refl,
          (mark_terminal-tables session_keys sets st.ttl_seconds w.registry t.now t.clock call).1,
          stays,
        )

  recover_call-frees :
      (t : Tick) (call : CallSession) (now : ℕ) (w : Plane st)
      → IsStored lease_keys st.lease_seconds now w.leases
      → now ≤ t.now
      → let ran = recover_call st t call w in
        (ran.1 ≡ true)
        × (ran.0.db ≡ interrupt_call t call w.db)
        × (ran.0.registry.recovery ≡ sets.zrem w.registry.recovery call.call_id)
        × IsStored lease_keys st.lease_seconds t.now ran.0.leases
  unfolding recover_call
  recover_call-frees t call now w h after =
      free_call-frees t call now (record w { db = interrupt_call t call w.db }) h after

  -- The call `i` is in no recovery set, and the attempt `b` is not in progress.
  pub record IsEnded (i b : ℕ) (w : Plane st) : Type 0 where
    pub not_due : sets.score w.registry.recovery i ≡ none
    pub not_live : any (is_live b) w.db.attempts ≡ false

  recover_call-IsEnded :
      (t : Tick) (call : CallSession) (now i b : ℕ) (w : Plane st)
      → IsStored lease_keys st.lease_seconds now w.leases
      → now ≤ t.now
      → IsEnded i b w
      → IsEnded i b (recover_call st t call w).0
  recover_call-IsEnded t call now i b w h after ended =
      let (fine, db, recovery, stays) = recover_call-frees t call now w h after in
      record {
        not_due =
            rw recovery
              (ground (arith, sets.score-zrem w.registry.recovery call.call_id i, ended.not_due));
        not_live = rw db (interrupt_call-dead t call w.db b ended.not_live);
      }

  recover_call-ends :
      (t : Tick) (call : CallSession) (now b : ℕ) (w : Plane st)
      → IsStored lease_keys st.lease_seconds now w.leases
      → now ≤ t.now
      → call.attempt_id ≡ some b
      → IsEnded call.call_id b (recover_call st t call w).0
  recover_call-ends t call now b w h after e =
      let (fine, db, recovery, stays) = recover_call-frees t call now w h after in
      record {
        not_due = rw recovery (
            ground (
              arith,
              sets.score-zrem w.registry.recovery call.call_id call.call_id,
              ==_refl call.call_id,
            ));
        not_live = rw db (interrupt_call-ended t call w.db b e);
      }

  -- Time does not run backwards between the rounds, the first of which is not before `now`.
  pub record IsOrdered (tick : ℕ → Tick) (n now : ℕ) : Type 0 where
    pub first : now ≤ (tick n).now
    pub later : (k : ℕ) → (tick k).now ≤ (tick (k + 1)).now

  next_round :
      (tick : ℕ → Tick) (n now : ℕ) → IsOrdered tick n now → IsOrdered tick (n + 1) (tick n).now
  next_round tick n now o = record { first = o.later n; later = o.later }

  -- The loop is never cut short while leases parse: every call of the list that is not terminal is
  -- counted, and what has ended stays ended.
  recover_all-IsEnded :
      (tick : ℕ → Tick) (n now i b : ℕ) (calls : List CallSession) (w : Plane st)
      → IsStored lease_keys st.lease_seconds now w.leases
      → IsOrdered tick n now
      → IsEnded i b w
      → ((recover_all st tick n calls w).1 ≡ true) × IsEnded i b (recover_all st tick n calls w).0.0
  unfolding recover_all
  recover_all-IsEnded tick n now i b [] w h o ended = (refl, ended)
  recover_all-IsEnded tick n now i b (call ∷ calls) w h o ended =
      elim (Bool-cases (is_terminal call.state)) [
        | inl over ↦ rw over (recover_all-IsEnded tick n now i b calls w h o ended)
        | inr active ↦
            let (fine, db, recovery, stays) = recover_call-frees (tick n) call now w h o.first in
            rw (active, fine)
              (recover_all-IsEnded tick (n + 1) (tick n).now i b calls
                (recover_call st (tick n) call w).0 stays (next_round tick n now o)
                (recover_call-IsEnded (tick n) call now i b w h o.first ended))
      ]

  -- A lost call is always recovered: when the sweep's loop meets a call that is not terminal, and
  -- the stored leases parse, then the loop runs to its end, and there the call is in the recovery
  -- set no more and its attempt is not in progress, whatever other calls come before and after it.
  pub lost_call_recovered :
      (tick : ℕ → Tick) (n now b : ℕ) (before : List CallSession) (call : CallSession)
      (after : List CallSession) (w : Plane st)
      → IsStored lease_keys st.lease_seconds now w.leases
      → IsOrdered tick n now
      → is_terminal call.state ≡ false
      → call.attempt_id ≡ some b
      → ((recover_all st tick n (before ++ call ∷ after) w).1 ≡ true)
        × IsEnded call.call_id b (recover_all st tick n (before ++ call ∷ after) w).0.0
  unfolding recover_all
  lost_call_recovered tick n now b [] call after w h o lost e =
      let (fine, db, recovery, stays) = recover_call-frees (tick n) call now w h o.first in
      rw (lost, fine)
        (recover_all-IsEnded tick (n + 1) (tick n).now call.call_id b after
          (recover_call st (tick n) call w).0 stays (next_round tick n now o)
          (recover_call-ends (tick n) call now b w h o.first e))
  lost_call_recovered tick n now b (c ∷ before) call after w h o lost e =
      elim (Bool-cases (is_terminal c.state)) [
        | inl over ↦ rw over (lost_call_recovered tick n now b before call after w h o lost e)
        | inr active ↦
            let (fine, db, recovery, stays) = recover_call-frees (tick n) c now w h o.first in
            rw (active, fine)
              (lost_call_recovered tick (n + 1) (tick n).now b before call after
                (recover_call st (tick n) c w).0 stays (next_round tick n now o) lost e)
      ]
