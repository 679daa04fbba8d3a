-- ===== src/Calls/Lease/Exclusion.antt =====
-- src/bluelab/calls/lease.py: one live call for each participant.
use bluelab_backend_prod.Prelude.{
  ℕ, ◌+◌, ◌*◌, ◌≤◌, ◌<◌, ◌≡◌, ◌≢◌, Bool, true, false, not, ◌&&◌, none, some, List, [], ◌∷◌, ◌==◌,
  if◌then◌else◌, ok, arith, ltb, any, All, inl, inr, Option-cases, Bool-cases,
}
use bluelab_backend_prod.Valkey.{Keyspace}
use bluelab_backend_prod.Calls.Json.{Fields}
use bluelab_backend_prod.Calls.Lease.{
  CallLease, LeaseKey, ParticipantKind, rep, candidate, author, lease_key_eq, key, same_key,
  same_key_iff, encode, acquire, current, holds, renew, release, Round,
}
use bluelab_backend_prod.Calls.Lease.Codec.{decode-encode}

abbrev pub key_of : CallLease → LeaseKey
key_of l = key l.participant_kind l.participant_id

-- Whether two calls are of one participant: of one candidate, or of one account, be it as a rep or
-- as an author.
abbrev pub is_same_participant : CallLease → CallLease → Bool
is_same_participant l m = (l.participant_id == m.participant_id) && elim l.participant_kind [
  | candidate ↦ elim m.participant_kind [ candidate ↦ true | rep ↦ false | author ↦ false ]
  | rep ↦ elim m.participant_kind [ candidate ↦ false | rep ↦ true | author ↦ true ]
  | author ↦ elim m.participant_kind [ candidate ↦ false | rep ↦ true | author ↦ true ]
]

same_key-kinds :
    (a b : ParticipantKind) (i j : ℕ)
    → same_key (key a i) (key b j) ≡ (
        (i == j) && elim a [
          | candidate ↦ elim b [ candidate ↦ true | rep ↦ false | author ↦ false ]
          | rep ↦ elim b [ candidate ↦ false | rep ↦ true | author ↦ true ]
          | author ↦ elim b [ candidate ↦ false | rep ↦ true | author ↦ true ]
        ])
same_key-kinds rep rep i j = ground arith
same_key-kinds rep candidate i j = ground arith
same_key-kinds rep author i j = ground arith
same_key-kinds candidate rep i j = ground arith
same_key-kinds candidate candidate i j = ground arith
same_key-kinds candidate author i j = ground arith
same_key-kinds author rep i j = ground arith
same_key-kinds author candidate i j = ground arith
same_key-kinds author author i j = ground arith

key_of-is_same_participant :
    (l m : CallLease) → same_key (key_of l) (key_of m) ≡ is_same_participant l m
key_of-is_same_participant l m =
    same_key-kinds l.participant_kind m.participant_kind l.participant_id m.participant_id

module _ (ks : Keyspace LeaseKey Fields) (ttl : ℕ) where
  open ks use {Store, get, set, delete}

  -- After one acquisition, a later one succeeds exactly as it would have without the first, but
  -- for the same participant while the first lease lasts: then it fails. A rep and an author of
  -- one account are the same participant.
  pub acquire-acquire :
      (s : Store) (now later : ℕ) (l m : CallLease)
      → now ≤ later
      → (acquire ks ttl (acquire ks ttl s now l).0 later m).1 ≡ (
          if is_same_participant l m && (acquire ks ttl s now l).1
          then not (ltb later (now + 1000 * ttl))
          else (acquire ks ttl s later m).1)
  unfolding acquire
  acquire-acquire s now later l m h =
      rw (← key_of-is_same_participant l m) ground
        (arith, ks.get-set s now later (key_of l) (key_of m) (encode l) ttl)

  pub holds-stored :
      (s : Store) (now : ℕ) (l m : CallLease)
      → get s now (key_of l) ≡ some (encode m)
      → holds ks ttl s now l ≡ ok (m.call_id == l.call_id)
  unfolding holds
  holds-stored s now l m h = ground (arith, decode-encode m)

  -- Renewal by the owner, with nobody in between, succeeds, and for another period the lease that
  -- is read is the renewed one.
  pub renew_extends :
      (s : Store) (now later t : ℕ) (l m : CallLease)
      → get s now (key_of l) ≡ some (encode m)
      → m.call_id ≡ l.call_id
      → later ≤ t
      → t < later + 1000 * ttl
      → (s' : Store) × (renew ks ttl s now (λ x. x) later l ≡ ok (s', true))
        × (current ks ttl s' t l.participant_kind l.participant_id ≡ ok (some l))
  unfolding renew current
  renew_extends s now later t l m h own after before = (
    set s later (key_of l) (encode l) ttl,
    ground (arith, holds-stored s now l m h),
    ground (
      arith,
      ks.get-set s later t (key_of l) (key_of l) (encode l) ttl,
      same_key_iff (key_of l) (key_of l),
      decode-encode l,
    ),
  )

  -- Release by the owner in a round that is not interrupted succeeds; the lease is gone from then
  -- on, and every other key reads as it did.
  pub release_frees :
      (s : Store) (r : Round Store) (rounds : List (Round Store)) (l m : CallLease) (t : ℕ)
      (k : LeaseKey)
      → r.watch_error ≡ false
      → get s r.at (key_of l) ≡ some (encode m)
      → m.call_id ≡ l.call_id
      → r.at ≤ t
      → (s' : Store) × (release ks ttl s (r ∷ rounds) l ≡ ok (s', some true))
        × (get s' t k ≡ (if same_key (key_of l) k then none else get (r.meanwhile s) t k))
  unfolding release
  release_frees s r rounds l m t k quiet h own after = (
    delete (r.meanwhile s) r.at (key_of l),
    ground (arith, holds-stored s r.at l m h),
    ks.get-delete (r.meanwhile s) r.at t (key_of l) k after,
  )

  -- A call that does not own the stored lease of its participant can neither renew nor release
  -- it: both are refused and the store stays as it is, whatever other clients do meanwhile.
  pub stranger_changes_nothing :
      (s : Store) (meanwhile : Store → Store) (later : ℕ) (r : Round Store)
      (rounds : List (Round Store)) (l m : CallLease)
      → get s r.at (key_of l) ≡ some (encode m)
      → m.call_id ≢ l.call_id
      → (renew ks ttl s r.at meanwhile later l ≡ ok (s, false))
        × (release ks ttl s (r ∷ rounds) l ≡ ok (s, some false))
  unfolding renew release
  stranger_changes_nothing s meanwhile later r rounds l m h other =
      (ground (arith, holds-stored s r.at l m h), ground (arith, holds-stored s r.at l m h))

  -- From `now` on, what is stored is written leases.
  abbrev pub IsStored : ℕ → Store → Type 0
  IsStored now s =
      (t : ℕ) (k : LeaseKey) (raw : Fields)
      → now ≤ t
      → get s t k ≡ some raw
      → (m : CallLease) × (raw ≡ encode m)

  pub acquire-IsStored :
      (s : Store) (now : ℕ) (l : CallLease)
      → IsStored now s
      → IsStored now (acquire ks ttl s now l).0
  unfolding acquire
  acquire-IsStored s now l h t k raw after p = elim (Option-cases (get s now (key_of l))) [
    | inl free ↦ elim (Bool-cases (same_key (key_of l) k)) [
      | inl same ↦ (l, ground (arith, ks.get-set s now t (key_of l) k (encode l) ttl after))
      | inr other ↦
          h t k raw after (ground (arith, ks.get-set s now t (key_of l) k (encode l) ttl after))
    ]
    | inr (old, taken) ↦ h t k raw after (ground arith)
  ]

  pub holds_total :
      (s : Store) (now t : ℕ) (l : CallLease)
      → IsStored now s
      → now ≤ t
      → (mine : Bool) × (holds ks ttl s t l ≡ ok mine)
  unfolding holds
  holds_total s now t l h after = elim (Option-cases (get s t (key_of l))) [
    | inl free ↦ (false, ground arith)
    | inr (raw, taken) ↦
        let (m, e) = h t (key_of l) raw after taken in
        (m.call_id == l.call_id, ground (arith, decode-encode m))
  ]

  -- The loop of `release` ends with an answer as soon as one of its rounds is not interrupted,
  -- whatever other clients store meanwhile, as long as it is leases.
  pub release_terminates :
      (s : Store) (now : ℕ) (rounds : List (Round Store)) (l : CallLease)
      → IsStored now s
      → All
          (λ r. (now ≤ r.at) × ((u : Store) → IsStored now u → IsStored now (r.meanwhile u)))
          rounds
      → any (λ r. not r.watch_error) rounds ≡ true
      → (s' : Store) × (done : Bool) × (release ks ttl s rounds l ≡ ok (s', some done))
  unfolding release
  release_terminates s now [] l h fair e = cc
  release_terminates s now (r ∷ rounds) l h (later, rest) e =
      let (mine, held) = holds_total s now r.at l h later.0 in
      elim (Bool-cases mine) [
        | inl own ↦ elim (Bool-cases r.watch_error) [
          | inl again ↦
              let ih =
                release_terminates (r.meanwhile s) now rounds l (later.1 s h) rest (ground arith) in
              (ih.0, ih.1, ground (arith, ih.2))
          | inr quiet ↦ (delete (r.meanwhile s) r.at (key_of l), true, ground arith)
        ]
        | inr other ↦ (s, false, ground arith)
      ]
