-- ===== src/Calls/Registry/Store.antt =====
-- src/bluelab/calls/registry.py, `CallRegistry`. `now` is the store's clock in milliseconds when
-- a method runs, and `clock` is int(time.time()).
pub mod Due
use bluelab_backend_prod.Prelude.{
  ℕ, ◌+◌, Bool, true, false, ◌&&◌, not, Option, none, some, List, [], ◌∷◌, ◌==◌, elem,
  if◌then◌else◌, Result, ok, err, ◌>>=◌, ◌>>◌,
}
use bluelab_backend_prod.Prelude.Equality.{Eq, nat_eq}
use bluelab_backend_prod.Valkey.{Keyspace, SortedSet}
use bluelab_backend_prod.Calls.Json.{Fields, DecodeError}
use bluelab_backend_prod.Calls.Registry.{
  CallSession, SessionState, established, terminal, is_terminal, is_pending, encode, decode,
}

module _ (ks : Keyspace ℕ Fields) (z : SortedSet) (ttl_seconds : ℕ) where
  -- The session keys, and the sets `_RECOVERY_KEY` and `_RECORDING_KEY`.
  pub record Registry : Type 0 where
    pub sessions : ks.Store
    pub recovery : z.Members
    pub recording : z.Members

  unfoldable pub put : Registry → ℕ → ℕ → CallSession → Option ℕ → Registry
  put r now clock session recover_at =
      let deadline : ℕ = elim recover_at [
        | some at ↦ at
        | none ↦ clock + (if is_pending session.state then 60 else 930)
      ] in
      record r {
        sessions = ks.set r.sessions now session.call_id (encode session) ttl_seconds;
        recovery =
            if is_terminal session.state
            then z.zrem r.recovery session.call_id
            else z.zadd r.recovery session.call_id deadline;
      }

  unfoldable pub get : Registry → ℕ → ℕ → Result DecodeError (Option CallSession)
  get r now call = elim (ks.get r.sessions now call) [
    | none ↦ ok none
    | some raw ↦ decode raw >>= λ c. ok (some c)
  ]

  unfoldable pub mark_established : Registry → ℕ → ℕ → CallSession → Registry × CallSession
  unfolding put
  mark_established r now clock session =
      let c = record session { state = established } in (put r now clock c none, c)

  unfoldable pub mark_terminal : Registry → ℕ → ℕ → CallSession → Registry × CallSession
  unfolding put
  mark_terminal r now clock session =
      let c = record session { state = terminal } in
      let r' = put r now clock c none in
      (
        elim c.attempt_id [
          | none ↦ r'
          | some a ↦ record r' { recording = z.zadd r'.recording c.call_id (clock + 600) }
        ],
        c,
      )

  unfoldable pub delete : Registry → ℕ → ℕ → Registry
  delete r now call = record r {
    sessions = ks.delete r.sessions now call;
    recovery = z.zrem r.recovery call;
    recording = z.zrem r.recording call;
  }

  -- the loop of `due`
  unfoldable pub due_loop : Registry → ℕ → List ℕ → Result DecodeError (Registry × List CallSession)
  unfolding get
  due_loop r now [] = ok (r, [])
  due_loop r now (call ∷ ids) = do
    found ← get r now call
    elim found [
      | none ↦ due_loop (record r { recovery = z.zrem r.recovery call }) now ids
      | some c ↦ due_loop r now ids >>= λ (r', calls). ok (r', c ∷ calls)
    ]

  unfoldable pub due : Registry → ℕ → ℕ → Result DecodeError (Registry × List CallSession)
  unfolding due_loop
  due r now now_epoch = due_loop r now (z.up_to r.recovery now_epoch)

  -- the loops of `active_for_org` and `active_org_ids`
  unfoldable pub active_loop :
      Registry → ℕ → (CallSession → Bool) → List ℕ → Result DecodeError (List CallSession)
  unfolding get
  active_loop r now test [] = ok []
  active_loop r now test (call ∷ ids) = do
    found ← get r now call
    calls ← active_loop r now test ids
    ok (elim found [ none ↦ calls | some c ↦ if test c then c ∷ calls else calls ])

  unfoldable pub active_for_org : Registry → ℕ → ℕ → Result DecodeError (List CallSession)
  unfolding active_loop
  active_for_org r now org =
      active_loop r now (λ c. c.org_id == org && not (is_terminal c.state)) (z.every r.recovery)

  -- `orgs.add`
  unfoldable pub orgs_of : List CallSession → List ℕ
  orgs_of [] = []
  orgs_of (c ∷ cs) = let rest = orgs_of cs in if elem c.org_id rest then rest else c.org_id ∷ rest

  unfoldable pub active_org_ids : Registry → ℕ → Result DecodeError (List ℕ)
  unfolding active_loop orgs_of
  active_org_ids r now =
      active_loop r now (λ c. not (is_terminal c.state)) (z.every r.recovery) >>= λ cs.
      ok (orgs_of cs)

  -- the loop of `due_recordings`
  unfoldable pub recordings_loop :
      Registry → ℕ → List ℕ → Result DecodeError (Registry × List CallSession)
  unfolding get
  recordings_loop r now [] = ok (r, [])
  recordings_loop r now (call ∷ ids) = do
    found ← get r now call
    (r', calls) ← recordings_loop (record r { recording = z.zrem r.recording call }) now ids
    ok (r', elim found [ none ↦ calls | some c ↦ c ∷ calls ])

  unfoldable pub due_recordings :
      Registry → ℕ → ℕ → Result DecodeError (Registry × List CallSession)
  unfolding recordings_loop
  due_recordings r now now_epoch = recordings_loop r now (z.up_to r.recording now_epoch)

  unfoldable pub recording_resolved : Registry → ℕ → Registry
  recording_resolved r call = record r { recording = z.zrem r.recording call }
