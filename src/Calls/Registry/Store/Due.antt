-- ===== src/Calls/Registry/Store/Due.antt =====
-- src/bluelab/calls/registry.py: which calls the recovery sweep finds.
use bluelab_backend_prod.Prelude.{
  ℕ, ◌≤◌, ◌≡◌, refl, false, ◌&&◌, Option, none, some, List, [], ◌∷◌, map, ◌==◌, leb, elem, is_some,
  ok, arith, Option-cases, Bool-cases, inl, inr, ==_refl,
}
use bluelab_backend_prod.Prelude.Equality.{nat_eq}
use bluelab_backend_prod.Valkey.{Keyspace, SortedSet, is_scored}
use bluelab_backend_prod.Calls.Json.{Fields}
use bluelab_backend_prod.Calls.Registry.{CallSession, encode, terminal}
use bluelab_backend_prod.Calls.Registry.Codec.{decode-encode_session}
use bluelab_backend_prod.Calls.Registry.Store.{Registry, put, get, due_loop, due, mark_terminal}

module _ (ks : Keyspace ℕ Fields) (z : SortedSet) (ttl : ℕ) where
  -- From `now` on, what is stored under a call's key is a written session of that call.
  pub record IsWritten (now : ℕ) (s : ks.Store) : Type 0 where
    pub written :
        (t call : ℕ) (raw : Fields)
        → now ≤ t
        → ks.get s t call ≡ some raw
        → (c : CallSession) × (raw ≡ encode c) × (c.call_id ≡ call)

  -- Storing a session keeps the store well formed.
  pub put-IsWritten :
      (r : Registry ks z ttl) (now clock : ℕ) (c : CallSession) (at : Option ℕ)
      → IsWritten now r.sessions
      → IsWritten now (put ks z ttl r now clock c at).sessions
  unfolding put
  put-IsWritten r now clock c at h = record {
    written = λ t call raw after found. elim (Bool-cases (c.call_id == call)) [
      | inl same ↦ (
        c,
        ground (arith, ks.get-set r.sessions now t c.call_id call (encode c) ttl after),
        ground arith,
      )
      | inr other ↦
          h.written t call raw after
            (ground (arith, ks.get-set r.sessions now t c.call_id call (encode c) ttl after))
    ];
  }

  abbrev pub ids_of : List CallSession → List ℕ
  ids_of cs = map CallSession.call_id cs

  due_loop-exact :
      (r : Registry ks z ttl) (now : ℕ) (ids : List ℕ)
      → IsWritten now r.sessions
      → (r' : Registry ks z ttl) × (calls : List CallSession) × (due_loop ks z ttl r now ids
          ≡ ok (r', calls))
        × ((i : ℕ) → elem i (ids_of calls) ≡ (elem i ids && is_some (ks.get r.sessions now i)))
  unfolding due_loop get
  due_loop-exact r now [] h = (r, [], refl, λ i. refl)
  due_loop-exact r now (call ∷ ids) h = elim (Option-cases (ks.get r.sessions now call)) [
    | inl gone ↦
        let (r', calls, e, exact) =
          due_loop-exact (record r { recovery = z.zrem r.recovery call }) now ids h in
        (r', calls, ground arith, λ i. ground (arith, exact i))
    | inr (raw, stored) ↦
        let (c, same, named) = h.written now call raw (omega arith) stored in
        let (r', calls, e, exact) = due_loop-exact r now ids h in
        (r', c ∷ calls, ground (arith, decode-encode_session c), λ i. ground (arith, exact i))
  ]

  -- On a well-formed store the recovery query always answers, and it finds exactly the calls
  -- that are scored at or before the given time and still stored.
  pub due_exact :
      (r : Registry ks z ttl) (now now_epoch i : ℕ)
      → IsWritten now r.sessions
      → (r' : Registry ks z ttl) × (calls : List CallSession) × (due ks z ttl r now now_epoch
          ≡ ok (r', calls))
        × (elem i (ids_of calls) ≡ (
            is_scored (λ at. leb at now_epoch) (z.score r.recovery i)
            && is_some (ks.get r.sessions now i)))
  unfolding due
  due_exact r now now_epoch i h =
      let (r', calls, e, exact) = due_loop-exact r now (z.up_to r.recovery now_epoch) h in
      (r', calls, e, ground (arith, exact i, z.elem-up_to r.recovery i now_epoch))

  pub mark_terminal-tables :
      (r : Registry ks z ttl) (now clock : ℕ) (c : CallSession)
      → let r' = (mark_terminal ks z ttl r now clock c).0 in
        (r'.sessions ≡ (put ks z ttl r now clock (record c { state = terminal }) none).sessions)
        × (r'.recovery ≡ z.zrem r.recovery c.call_id)
  unfolding mark_terminal put
  mark_terminal-tables r now clock c = ground arith

  -- A call that was marked terminal is found by no later recovery query, though its session
  -- stays stored.
  pub terminal_not_due :
      (r : Registry ks z ttl) (now clock later now_epoch : ℕ) (c : CallSession)
      → IsWritten now r.sessions
      → now ≤ later
      → (r' : Registry ks z ttl) × (calls : List CallSession) × (due ks z ttl
            (mark_terminal ks z ttl r now clock c).0
            later
            now_epoch
          ≡ ok (r', calls))
        × (elem c.call_id (ids_of calls) ≡ false)
  terminal_not_due r now clock later now_epoch c h after =
      let ended = (mark_terminal ks z ttl r now clock c).0 in
      let (sessions, recovery) = mark_terminal-tables r now clock c in
      let written : IsWritten now ended.sessions =
        rw sessions (put-IsWritten r now clock (record c { state = terminal }) none h) in
      let (r', calls, e, exact) = due_exact ended later now_epoch c.call_id (record {
        written = λ t call raw a found. written.written t call raw (omega arith) found;
      }) in
      (
        r',
        calls,
        e,
        ground (
          arith,
          exact,
          recovery,
          z.score-zrem r.recovery c.call_id c.call_id,
          ==_refl c.call_id,
        ),
      )
