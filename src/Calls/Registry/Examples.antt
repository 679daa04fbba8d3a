-- ===== src/Calls/Registry/Examples.antt =====
-- Runs of src/bluelab/calls/registry.py that meet the hypotheses of its theorems: one pending
-- call, and a capacity of two slots.
use bluelab_backend_prod.Prelude.{ℕ, false, none, some, []}
use bluelab_backend_prod.Prelude.Equality.{nat_eq}
use bluelab_backend_prod.Valkey.{Keyspace}
use bluelab_backend_prod.Valkey.Memory.{memory, nothing, sorted_memory}
use bluelab_backend_prod.Calls.Json.{Fields}
use bluelab_backend_prod.Calls.Lease.{rep}
use bluelab_backend_prod.Calls.Registry.{CallSession, pending, attempt, rep_role}
use bluelab_backend_prod.Calls.Registry.Store.{Registry}
use bluelab_backend_prod.Calls.Registry.Store.Due.{IsWritten}

abbrev cache : Keyspace ℕ Fields
cache = memory ℕ Fields

abbrev slots : Keyspace ℕ ℕ
slots = memory ℕ ℕ

abbrev call : CallSession
call = record {
  call_id = 3;
  mode = attempt;
  participant_kind = rep;
  participant_id = 1;
  participant_identity = "p-1";
  participant_display_name = "Ada";
  org_id = 7;
  team_id = 8;
  drill_id = 2;
  attempt_id = some 50;
  stage_id = none;
  stage_ord = none;
  stage_total = none;
  restart = false;
  capacity_slot = some 0;
  position_id = none;
  account_role = some rep_role;
  state = pending;
}

abbrev empty : Registry cache sorted_memory 7200
empty = record { sessions = nothing ℕ Fields; recovery = []; recording = [] }

abbrev no_slots : slots.Store
no_slots = nothing ℕ ℕ

-- slot 0 taken at 0 by call 3
abbrev one_slot : slots.Store
one_slot = slots.set no_slots 0 0 3 7200

empty-IsWritten : IsWritten cache sorted_memory 7200 0 empty.sessions
empty-IsWritten = record { written = λ t call raw h p. cc }

abbrev slot_of : ℕ → ℕ
slot_of i = i
