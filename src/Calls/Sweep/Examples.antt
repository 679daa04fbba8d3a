-- ===== src/Calls/Sweep/Examples.antt =====
-- A run of src/bluelab/calls/sweep.py that meets the hypotheses of its theorems: one established
-- call of a rep whose instance was lost, with its attempt in progress.
use bluelab_backend_prod.Prelude.{ℕ, ◌+◌, ◌≡◌, refl, true, false, none, some, [], ◌∷◌, ◌++◌, arith}
use bluelab_backend_prod.Prelude.Equality.{nat_eq}
use bluelab_backend_prod.Valkey.Memory.{memory, nothing, sorted_memory}
use bluelab_backend_prod.Calls.Json.{Fields}
use bluelab_backend_prod.Calls.Database.{Db, in_progress, no_recording}
use bluelab_backend_prod.Calls.Lease.{LeaseKey, lease_key_eq, rep}
use bluelab_backend_prod.Calls.Plane.{Stores, Plane, Tick}
use bluelab_backend_prod.Calls.Registry.{CallSession, attempt, rep_role, established}
use bluelab_backend_prod.Calls.Sweep.{recover_all}
use bluelab_backend_prod.Calls.Sweep.Recovery.{IsEnded, lost_call_recovered}

abbrev stores : Stores
stores = record {
  lease_keys = memory LeaseKey Fields;
  session_keys = memory ℕ Fields;
  slot_keys = memory ℕ ℕ;
  sets = sorted_memory;
  lease_seconds = 900;
  ttl_seconds = 7200;
}

abbrev call : CallSession
call = record {
  call_id = 3;
  mode = attempt;
  participant_kind = rep;
  participant_id = 1;
  participant_identity = "p-1";
  participant_display_name = "Ada";
  org_id = 7;
  team_id = 8;
  drill_id = 2;
  attempt_id = some 50;
  stage_id = none;
  stage_ord = none;
  stage_total = none;
  restart = false;
  capacity_slot = some 0;
  position_id = none;
  account_role = some rep_role;
  state = established;
}

abbrev db : Db
db = record {
  attempts =
      record {
        id = 50;
        org = 7;
        team = 8;
        drill = 2;
        rep = some 1;
        candidate = none;
        stage = none;
        self_authored = false;
        restart = false;
        status = in_progress;
        ended_at = none;
        duration_seconds = none;
        recording_object_key = none;
        recording_status = no_recording;
      }
      ∷ [];
  assignments = [];
  recipients = [];
  stages = [];
  candidates = [];
  positions = [];
  consents = [];
  erasures = [];
  transcript = [];
  jobs = [];
  emails = [];
}

abbrev plane : Plane stores
plane = record {
  registry = record { sessions = nothing ℕ Fields; recovery = (3, 60) ∷ []; recording = [] };
  leases = nothing LeaseKey Fields;
  slots = nothing ℕ ℕ;
  db = db;
  faults = [];
  deleted = [];
}

abbrev tick : ℕ → Tick
tick n = record { now = 61000 + n; clock = 61; fresh = 90 + n }

lost_call_recovered_example :
    ((recover_all stores tick 0 ([] ++ call ∷ []) plane).1 ≡ true)
    × IsEnded stores 3 50 (recover_all stores tick 0 ([] ++ call ∷ []) plane).0.0
lost_call_recovered_example =
    lost_call_recovered stores tick 0 0 50 [] call [] plane (λ t k raw after found. cc)
      (record { first = omega arith; later = λ k. omega arith }) refl refl
