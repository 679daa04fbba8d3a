-- ===== src/Calls/Lease/Codec.antt =====
-- src/bluelab/calls/lease.py: a stored lease reads back as it was written.
use bluelab_backend_prod.Prelude.{ℕ, ◌≡◌, refl, Option, none, some, ok}
use bluelab_backend_prod.Calls.Lease.{
  CallLease, ParticipantKind, rep, candidate, author, LeaseState, pending, established, encode,
  decode,
}

fields_round_trip :
    (kind : ParticipantKind) (i c : ℕ) (a : Option ℕ) (s : LeaseState)
    → let l : CallLease = record {
      participant_kind = kind;
      participant_id = i;
      call_id = c;
      attempt_id = a;
      state = s;
    } in
      decode (encode l) ≡ ok l
unfolding decode encode
fields_round_trip rep i c none pending = refl
fields_round_trip rep i c (some a) pending = refl
fields_round_trip rep i c none established = refl
fields_round_trip rep i c (some a) established = refl
fields_round_trip candidate i c none pending = refl
fields_round_trip candidate i c (some a) pending = refl
fields_round_trip candidate i c none established = refl
fields_round_trip candidate i c (some a) established = refl
fields_round_trip author i c none pending = refl
fields_round_trip author i c (some a) pending = refl
fields_round_trip author i c none established = refl
fields_round_trip author i c (some a) established = refl

-- Every lease is read back from its stored form unchanged.
pub decode-encode : (l : CallLease) → decode (encode l) ≡ ok l
decode-encode l =
    fields_round_trip l.participant_kind l.participant_id l.call_id l.attempt_id l.state
