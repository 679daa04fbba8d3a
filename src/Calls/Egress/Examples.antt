-- ===== src/Calls/Egress/Examples.antt =====
-- A run of src/bluelab/calls/egress.py that meets the hypotheses of its theorem: a completed call
-- whose upload is pending, and then fails.
use bluelab_backend_prod.Prelude.{false, none, some, [], ◌∷◌}
use bluelab_backend_prod.Calls.Database.{Attempt, completed, pending_upload}
use bluelab_backend_prod.Calls.Lease.{rep}
use bluelab_backend_prod.Calls.Registry.{CallSession, terminal, attempt, rep_role}
use bluelab_backend_prod.Calls.Egress.{RecordingDb}

abbrev ended_call : CallSession
ended_call = record {
  call_id = 3;
  mode = attempt;
  participant_kind = rep;
  participant_id = 1;
  participant_identity = "p-1";
  participant_display_name = "Ada";
  org_id = 7;
  team_id = 8;
  drill_id = 2;
  attempt_id = some 50;
  stage_id = none;
  stage_ord = none;
  stage_total = none;
  restart = false;
  capacity_slot = none;
  position_id = none;
  account_role = some rep_role;
  state = terminal;
}

abbrev recorded : Attempt
recorded = record {
  id = 50;
  org = 7;
  team = 8;
  drill = 2;
  rep = some 1;
  candidate = none;
  stage = none;
  self_authored = false;
  restart = false;
  status = completed;
  ended_at = some 900;
  duration_seconds = some 60;
  recording_object_key = some "k";
  recording_status = pending_upload;
}

abbrev recordings : RecordingDb
recordings = record { attempts = recorded ∷ []; faults = [] }
