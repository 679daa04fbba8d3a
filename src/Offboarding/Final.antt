-- ===== src/Offboarding/Final.antt =====
-- src/bluelab/lifecycle: what holds of an organisation over any course of the lifecycle's
-- operations, staged and accepted in whatever order.
use bluelab_backend_prod.Prelude.{
  ℕ, ◌≤◌, ◌≡◌, ◌∙◌, refl, subst, Bool, true, false, any, ◌&&◌, some, List, [], ◌∷◌, ◌==◌, ==_iff,
  All, arith, Bool-cases, Option-cases, inl, inr,
}
use bluelab_backend_prod.Offboarding.{
  DeletionRestriction, Library, LifecycleTables, Org, find_operation, find_org, is_active,
  is_purging,
}
use bluelab_backend_prod.Offboarding.Claim.{
  claim_blocker, is_restricted, is_unanswered, prepare_claim,
}
use bluelab_backend_prod.Offboarding.Fence.{All-find, Due, IsFenced, is_later}
use bluelab_backend_prod.Offboarding.Steps.{LifecycleStep, claims, perform, perform-step, run}
use bluelab_backend_prod.Offboarding.Upheld.{
  Course, Evolves-Course, Evolves-IsFenced, changed, unmoved,
}
use bluelab_backend_prod.Prelude.Members.{All-mono, find-some}
use bluelab_backend_prod.Subjects.{
  Request, RequestKind, RequestStatus, awaiting_input, export, failed, pending, processing, ready,
}
use mathlib.Core.List.{Memᴰ}

-- A request that is still to be answered: one that is new, in work, waiting or failed, or an export
-- that is not delivered.
pub data IsOpen : RequestKind → RequestStatus → Type 0 where
  is_new : {k : RequestKind} → IsOpen k pending
  in_work : {k : RequestKind} → IsOpen k processing
  is_waiting : {k : RequestKind} → IsOpen k awaiting_input
  has_failed : {k : RequestKind} → IsOpen k failed
  not_delivered : IsOpen export ready

-- What keeps an organisation: an active deletion restriction, or a request that is open.
pub data IsObliged (id : ℕ) (t : LifecycleTables) : Type 0 where
  restricted :
      (r : DeletionRestriction)
      → Memᴰ r t.restrictions
      → r.org ≡ id
      → r.is_active ≡ true
      → IsObliged id t
  asked : (r : Request) → Memᴰ r t.requests → r.org ≡ id → IsOpen r.kind r.status → IsObliged id t

any-Mem {ℓ} :
    {A : Type ℓ} (p : A → Bool) (x : A) {xs : List A} → Memᴰ x xs → p x ≡ true → any p xs ≡ true
any-Mem p x (Memᴰ.head same) h = ground (arith, subst (λ z. p z ≡ true) same h)
any-Mem p x (Memᴰ.tail m) h = ground (arith, any-Mem p x m h)

IsOpen-is_unanswered :
    (r : Request) {k : RequestKind} {s : RequestStatus}
    → r.kind ≡ k
    → r.status ≡ s
    → IsOpen k s
    → is_unanswered r ≡ true
IsOpen-is_unanswered r kind status is_new = rw status refl
IsOpen-is_unanswered r kind status in_work = rw status refl
IsOpen-is_unanswered r kind status is_waiting = rw status refl
IsOpen-is_unanswered r kind status has_failed = rw status refl
IsOpen-is_unanswered r kind status not_delivered = rw (status, kind) refl

IsObliged-claim_blocker :
    (id : ℕ) (t : LifecycleTables) → IsObliged id t → claim_blocker id t ≡ true
unfolding claim_blocker is_restricted
IsObliged-claim_blocker id t (restricted r m own active') =
    let found =
      any-Mem (λ x. x.org == id && x.is_active) r m (ground (arith, (==_iff r.org id).1 own)) in
    ground (arith, found)
IsObliged-claim_blocker id t (asked r m own open') =
    let waits = IsOpen-is_unanswered r refl refl open' in
    let found =
      any-Mem (λ x. x.org == id && is_unanswered x) r m
        (ground (arith, (==_iff r.org id).1 own, waits)) in
    ground (arith, found)

-- Tables with no operation yet and no organisation that is purged.
pub fresh-IsFenced :
    (by : ℕ) (t : LifecycleTables)
    → t.operations ≡ []
    → All (λ g. is_purging g.lifecycle_status ≡ false) t.orgs
    → IsFenced by t
fresh-IsFenced by t none' calm = record {
  fenced = rw none' tt;
  due =
      All-mono (λ g. is_purging g.lifecycle_status ≡ false) (Due by) t.orgs
        (λ g h purged. absurd (cc)) calm;
}

module _ (lib : Library) (by : ℕ) where
  run-IsFenced :
      (steps : List (ℕ × LifecycleStep)) (t : LifecycleTables)
      → All (λ s. s.0 ≤ by) steps
      → IsFenced by t
      → IsFenced by (run lib steps t)
  unfolding run
  run-IsFenced [] t early inv = inv
  run-IsFenced ((now, step) ∷ steps) t early inv =
      run-IsFenced steps (perform lib now step t) early.1 (
        Evolves-IsFenced by t (perform lib now step t) (perform-step by t lib now step inv early.0)
          inv)

  -- The retention promise: from fenced tables, such as those with no operation yet, whatever
  -- operations are called until a time, in whatever order, an organisation that is then purged
  -- has a deadline, and the deadline has passed by that time.
  pub purged_is_due :
      (steps : List (ℕ × LifecycleStep)) (t : LifecycleTables) (id : ℕ) (g : Org)
      → IsFenced by t
      → All (λ s. s.0 ≤ by) steps
      → find_org id (run lib steps t) ≡ some g
      → is_purging g.lifecycle_status ≡ true
      → (d : ℕ) × (g.purge_eligible_at ≡ some d) × (d ≤ by)
  purged_is_due steps t id g inv early found purged =
      let after = run-IsFenced steps t early inv in
      let due = All-find (Due by) (λ x. x.id == id) (run lib steps t).orgs after.due found purged in
      elim (Option-cases g.purge_eligible_at) [
        | inl none' ↦ absurd (ground arith)
        | inr (d, at) ↦ (d, at, ground arith)
      ]

  -- The state of one organisation after one step.
  step-Course :
      (now : ℕ) (step : LifecycleStep) (t : LifecycleTables) (id : ℕ) (g : Org)
      → IsFenced by t
      → now ≤ by
      → find_org id t ≡ some g
      → Course by t g (find_org id (perform lib now step t))
  step-Course now step t id g inv early found =
      Evolves-Course by t (perform lib now step t) id g (perform-step by t lib now step inv early)
        found

  -- A purge is never undone: from fenced tables, an organisation that is claimed stays claimed over
  -- whatever operations are called, with the deadline that it was claimed under. No renewal of its
  -- service that was staged before the claim is applied after it.
  pub claimed_stays :
      (steps : List (ℕ × LifecycleStep)) (t : LifecycleTables) (id : ℕ) (g : Org)
      → IsFenced by t
      → All (λ s. s.0 ≤ by) steps
      → find_org id t ≡ some g
      → is_purging g.lifecycle_status ≡ true
      → (g' : Org) × (find_org id (run lib steps t) ≡ some g')
        × (is_purging g'.lifecycle_status ≡ true)
        × (g'.purge_eligible_at ≡ g.purge_eligible_at)
  unfolding run
  claimed_stays [] t id g inv early found purged = (g, found, purged, refl)
  claimed_stays ((now, step) ∷ steps) t id g inv early found purged =
      let t' = perform lib now step t in
      let inv' = Evolves-IsFenced by t t' (perform-step by t lib now step inv early.0) inv in
      elim (step-Course now step t id g inv early.0 found) [
        | unmoved found' ↦ claimed_stays steps t' id g inv' early.1 found' purged
        | changed g' found' c ↦
            let (g'', last, purged'', same) =
              claimed_stays steps t' id g' inv' early.1 found' (ground (arith, c.allowed)) in
            (g'', last, purged'', same ∙ c.stays purged)
      ]

  claims-blocked :
      (now id episode sequence : ℕ) (t : LifecycleTables)
      → claim_blocker id t ≡ true
      → perform lib now (claims id episode sequence) t ≡ t
  unfolding perform prepare_claim
  claims-blocked now id episode sequence t blocked =
      elim (Option-cases (find_operation (lib.claim_id id episode) t)) [
        | inr (o, known) ↦ ground arith
        | inl new ↦ elim (Option-cases (find_org id t)) [
          | inl unknown ↦ ground arith
          | inr (g, found) ↦ ground arith
        ]
      ]

  -- An obligation keeps an organisation: from fenced tables, no step claims an organisation that
  -- has an active deletion restriction or a subject request that is still to be answered, and to
  -- ask for its claim changes nothing.
  pub blocked_not_claimed :
      (now : ℕ) (step : LifecycleStep) (t : LifecycleTables) (id episode sequence : ℕ) (g g' : Org)
      → IsFenced by t
      → now ≤ by
      → find_org id t ≡ some g
      → IsObliged id t
      → is_purging g.lifecycle_status ≡ false
      → find_org id (perform lib now step t) ≡ some g'
      → (is_purging g'.lifecycle_status ≡ false)
        × (perform lib now (claims id episode sequence) t ≡ t)
  blocked_not_claimed now step t id episode sequence g g' inv early found obliged calm found' =
      let blocked = IsObliged-claim_blocker id t obliged in
      let still' = claims-blocked now id episode sequence t blocked in
      let own : g.id ≡ id = (==_iff g.id id).0 (find-some (λ x. x.id == id) t.orgs found) in
      elim (step-Course now step t id g inv early found) [
        | unmoved same ↦ (ground arith, still')
        | changed x there c ↦ elim (Bool-cases (is_purging x.lifecycle_status)) [
          | inr calm' ↦ (ground arith, still')
          | inl purged ↦
              let free : claim_blocker id t ≡ false =
                subst (λ k. claim_blocker k t ≡ false) own (c.clears purged calm).1 in
              absurd (cc)
        ]
      ]

  -- The deadline of an episode never moves to an earlier time: from fenced tables, a step that
  -- leaves an offboarded organisation offboarded or claimed keeps its episode, and its deadline is
  -- the same or later.
  pub deadline_grows :
      (now : ℕ) (step : LifecycleStep) (t : LifecycleTables) (id : ℕ) (g g' : Org) (d : ℕ)
      → IsFenced by t
      → now ≤ by
      → find_org id t ≡ some g
      → is_active g.lifecycle_status ≡ false
      → g.purge_eligible_at ≡ some d
      → find_org id (perform lib now step t) ≡ some g'
      → is_active g'.lifecycle_status ≡ false
      → (g'.offboarding_id ≡ g.offboarding_id)
        × (d' : ℕ) × (g'.purge_eligible_at ≡ some d')
        × (d ≤ d')
  deadline_grows now step t id g g' d inv early found off at found' off' =
      elim (step-Course now step t id g inv early found) [
        | unmoved same ↦
            let one : g ≡ g' = ground arith in
            (
              subst (λ x. x.offboarding_id ≡ g.offboarding_id) one refl,
              d,
              subst (λ x. x.purge_eligible_at ≡ some d) one at,
              omega arith,
            )
        | changed x there c ↦
            let one : x ≡ g' = ground arith in
            let (episode, later) =
              subst
                (λ y.
                  is_active y.lifecycle_status ≡ false
                  → (y.offboarding_id ≡ g.offboarding_id)
                    × (is_later g.purge_eligible_at y.purge_eligible_at ≡ true))
                one (c.lasts off) off' in
            elim (Option-cases g'.purge_eligible_at) [
              | inl none' ↦ absurd (ground arith)
              | inr (d', at') ↦ (episode, d', at', ground arith)
            ]
      ]
