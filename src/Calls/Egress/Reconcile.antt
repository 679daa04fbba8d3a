-- ===== src/Calls/Egress/Reconcile.antt =====
-- src/bluelab/calls/egress.py: the outcome of a recording is applied once.
use bluelab_backend_prod.Prelude.{
  ℕ, ◌≡◌, refl, Bool, false, List, [], ◌∷◌, any, arith, Option-cases, Bool-cases, inl, inr,
}
use bluelab_backend_prod.Calls.Database.{Attempt, RecordingStatus, available, unavailable}
use bluelab_backend_prod.Calls.Registry.{CallSession}
use bluelab_backend_prod.Calls.Egress.{
  RecordingDb, awaits, is_pending, set_recording, reconcile_recording,
}

set_recording-awaits :
    (attempt : ℕ) (state : RecordingStatus) (rows : List Attempt)
    → is_pending state ≡ false
    → any (awaits attempt) (set_recording attempt state rows) ≡ false
unfolding set_recording awaits
set_recording-awaits attempt state [] h = refl
set_recording-awaits attempt state (a ∷ rows) h =
    ground (arith, set_recording-awaits attempt state rows)

-- Of all callbacks about a call's recording only the first that finds it pending takes effect:
-- after any callback, a further one of either outcome changes nothing and opens no fault.
pub reconcile_once :
    (fault later_fault : ℕ) (call : CallSession) (first second : Bool) (db : RecordingDb)
    → let db' = (reconcile_recording fault call first db).0 in
      reconcile_recording later_fault call second db' ≡ (db', false)
unfolding reconcile_recording
reconcile_once fault later_fault call first second db = elim (Option-cases call.attempt_id) [
  | inl test_call ↦ ground arith
  | inr (attempt, real) ↦ elim (Bool-cases (any (awaits attempt) db.attempts)) [
    | inr settled ↦ ground arith
    | inl waiting ↦
        let done = set_recording-awaits attempt available db.attempts refl in
        let lost = set_recording-awaits attempt unavailable db.attempts refl in
        elim (Bool-cases first) [ inl good ↦ ground (arith, done) | inr bad ↦ ground (arith, lost) ]
  ]
]
