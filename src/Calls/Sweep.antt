-- ===== src/Calls/Sweep.antt =====
-- src/bluelab/calls/sweep.py: the periodic recovery of lost calls. A raise ends the run; what was
-- written before it stays.
pub mod Recovery
mod Examples
use bluelab_backend_prod.Prelude.{
  ℕ, ◌+◌, ◌-◌, Bool, true, false, ◌&&◌, not, Option, none, some, List, [], ◌∷◌, Result, ok, err,
  if◌then◌else◌, leb,
}
use bluelab_backend_prod.Calls.Database.{Db, Status, is_interrupted}
use bluelab_backend_prod.Calls.Egress.{RecordingDb, reconcile_recording, attempt_status}
use bluelab_backend_prod.Calls.Plane.{Stores, Plane, Tick, interrupt_call, free_call}
use bluelab_backend_prod.Calls.Registry.{CallSession, is_terminal}
use bluelab_backend_prod.Calls.Registry.Store.{due, due_recordings, active_org_ids}

-- The row of `_service_cutoff`, times in seconds.
pub record ServiceTerm : Type 0 where
  pub service_ends_at : Option ℕ
  pub offboarding_started_at : Option ℕ
  pub is_active : Bool
  pub pending_start : Option ℕ

-- `_service_cutoff`; `clock` is datetime.now(UTC)
unfoldable pub service_cutoff : ℕ → Option ServiceTerm → Option ℕ
service_cutoff clock none = some (clock - 60)
service_cutoff clock (some row) = elim row.pending_start [
  | some start ↦ some start
  | none ↦
      if not row.is_active
      then elim row.offboarding_started_at [
        | some started ↦ some started
        | none ↦ some (clock - 60)
      ]
      else elim row.service_ends_at [
        | none ↦ none
        | some ends ↦ if leb ends clock then some ends else none
      ]
]

module _ (st : Stores) where
  -- one round of the loop over `registry.due()`
  unfoldable pub recover_call : Tick → CallSession → Plane st → Plane st × Bool
  unfolding free_call interrupt_call
  recover_call t call w = free_call st t call (record w { db = interrupt_call t call w.db })

  -- The loop, with the number of calls processed. The n-th call runs at the n-th tick.
  unfoldable pub recover_all : (ℕ → Tick) → ℕ → List CallSession → Plane st → (Plane st × ℕ) × Bool
  unfolding recover_call
  recover_all tick n [] w = ((w, n), true)
  recover_all tick n (call ∷ calls) w =
      if is_terminal call.state
      then recover_all tick n calls w
      else (let ran = recover_call (tick n) call w in
          let rest = recover_all tick (n + 1) calls ran.0 in
          if ran.1 then rest else ((ran.0, n), false))

  abbrev pub is_void : Option Status → Bool
  is_void none = false
  is_void (some s) = is_interrupted s

  -- one round of the loop over `registry.due_recordings()`
  unfoldable pub settle_recording : ℕ → CallSession → Plane st → Plane st
  settle_recording fault_id call w =
      if is_void (attempt_status call w.db.attempts)
      then elim call.attempt_id [
        | none ↦ w
        | some attempt ↦ record w { deleted = attempt ∷ w.deleted }
      ]
      else (let tables : RecordingDb = record { attempts = w.db.attempts; faults = w.faults } in
          let settled = (reconcile_recording fault_id call false tables).0 in
          record w { db = record w.db { attempts = settled.attempts }; faults = settled.faults })

  unfoldable pub settle_recordings : (ℕ → ℕ) → ℕ → List CallSession → Plane st → Plane st × ℕ
  unfolding settle_recording
  settle_recordings fault_of n [] w = (w, n)
  settle_recordings fault_of n (call ∷ calls) w =
      settle_recordings fault_of (n + 1) calls (settle_recording (fault_of call.call_id) call w)

  -- the loop over `registry.active_org_ids()`; an unverified quiescence is logged
  unfoldable pub suspend_all :
      (ℕ → Option ServiceTerm) → ℕ → (ℕ → ℕ → Plane st → Plane st) → List ℕ → Plane st → Plane st
  unfolding service_cutoff
  suspend_all term_of clock quiesce [] w = w
  suspend_all term_of clock quiesce (org ∷ orgs) w =
      suspend_all term_of clock quiesce orgs (elim (service_cutoff clock (term_of org)) [
        | none ↦ w
        | some cutoff ↦ quiesce org cutoff w
      ])

  -- `run_once`, with the count that it returns; `none` is a raise. `quiesce` is
  -- `quiesce_org_calls` with its settings.
  unfoldable pub run_once :
      (ℕ → Tick)
      → (ℕ → ℕ)
      → (ℕ → Option ServiceTerm)
      → (ℕ → ℕ → Plane st → Plane st)
      → (now clock : ℕ) → Plane st
      → Plane st × Option ℕ
  unfolding recover_all settle_recordings suspend_all
  run_once tick fault_of term_of quiesce now clock w =
      elim (due st.session_keys st.sets st.ttl_seconds w.registry now clock) [
        | err e ↦ (w, none)
        | ok (r, calls) ↦
            let ((recovered, n), fine) = recover_all tick 0 calls (record w { registry = r }) in
            if not fine
            then (recovered, none)
            else elim (due_recordings st.session_keys st.sets st.ttl_seconds recovered.registry now
                clock) [
                  | err e ↦ (recovered, none)
                  | ok (r', recordings) ↦
                      let (settled, total) =
                        settle_recordings fault_of n recordings
                          (record recovered { registry = r' }) in
                      elim (active_org_ids st.session_keys st.sets st.ttl_seconds settled.registry
                        now) [
                          | err e ↦ (settled, none)
                          | ok orgs ↦ (suspend_all term_of clock quiesce orgs settled, some total)
                        ]
                ]
      ]
