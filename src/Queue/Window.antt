-- ===== src/Queue/Window.antt =====
-- src/bluelab/platform/queue/compat.py: jobs in the window of two releases.
use text.Mathlib.Text.{◌==◌ as text_eq}
use bluelab_backend_prod.Prelude.{
  ℕ, ◌<◌, ◌≡◌, refl, String, Bool, true, ◌&&◌, not, Option, none, some, [], ◌∷◌, ◌++◌, all, ok, err,
  arith,
}
use bluelab_backend_prod.Queue.{Value, version, incompatible_payload, Body, get, envelope, read}

module _ (A : Type 0) where
  -- No key of the reader.
  abbrev pub is_unknown : String × Value A → Bool
  is_unknown entry =
      not (text_eq entry.0 "v")
      && not (text_eq entry.0 "org_id")
      && not (text_eq entry.0 "team_id")
      && not (text_eq entry.0 "args")

  get-unknown :
      (extra : Body A)
      → all is_unknown extra ≡ true
      → (get A "v" extra ≡ none)
        × (get A "org_id" extra ≡ none)
        × (get A "team_id" extra ≡ none)
        × (get A "args" extra ≡ none)
  unfolding get
  get-unknown [] h = (refl, refl, refl, refl)
  get-unknown (entry ∷ extra) h =
      let (v, org, team, args) = get-unknown extra (ground arith) in
      (ground arith, ground arith, ground arith, ground arith)

  -- A newer release may put further fields on a job: the envelope that this release writes, with any
  -- fields behind it that the reader does not name, is read back as its version 1, organisation, team
  -- and arguments.
  pub read-envelope :
      (payload : A) (org : ℕ) (team : Option ℕ) (extra : Body A)
      → all is_unknown extra ≡ true
      → read A (envelope A payload org team ++ extra)
        ≡ ok (record { version = 1; org_id = org; team_id = team; args = some payload })
  unfolding read envelope
  read-envelope payload org none extra h =
      let (v, org', team, args) = get-unknown extra h in ground arith
  read-envelope payload org (some t) extra h =
      let (v, org', team, args) = get-unknown extra h in ground arith

  -- A job whose version is newer is refused as incompatible, whatever else it carries, so that it
  -- never runs in a scope that was misread.
  pub newer_refused :
      (body : Body A) (n : ℕ)
      → get A "v" body ≡ some (version n)
      → 1 < n
      → read A body ≡ err incompatible_payload
  unfolding read
  newer_refused body n h newer = ground arith
