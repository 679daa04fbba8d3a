-- ===== src/Life/Runs.antt =====
-- The life of an attempt over any sequence of operations: what is completed stays completed.
use bluelab_backend_prod.Prelude.{
  ℕ, ◌≡◌, refl, Bool, true, false, ◌&&◌, List, [], ◌∷◌, ◌==◌, any, arith,
}
use bluelab_backend_prod.Calls.Database.{Attempt, Status, in_progress, is_done, is_interrupted}
use bluelab_backend_prod.Calls.Text.{Unicode}
use bluelab_backend_prod.Life.{
  Move, completing, interrupting, exhausting, grading_first, grading_late, Evolves, unchanged,
  started, kept, moved, deleted, World, Action, perform, perform_all,
}
use bluelab_backend_prod.Life.Steps.{perform-Evolves}
use bluelab_backend_prod.Review.Commentary

-- A test that no allowed move leaves, and that an attempt in progress does not meet.
pub record IsLasting (p : Status → Bool) : Type 0 where
  pub lasts : (s t : Status) → Move s t → p s ≡ true → p t ≡ true
  pub later : p in_progress ≡ false

done-IsLasting : IsLasting is_done
done-IsLasting = record { lasts = lasts; later = refl }
  where
    lasts : (s t : Status) → Move s t → is_done s ≡ true → is_done t ≡ true
    lasts _ _ completing h = refl
    lasts _ _ interrupting h = h
    lasts _ _ exhausting h = refl
    lasts _ _ grading_first h = refl
    lasts _ _ grading_late h = refl

interrupted-IsLasting : IsLasting is_interrupted
interrupted-IsLasting = record { lasts = lasts; later = refl }
  where
    lasts : (s t : Status) → Move s t → is_interrupted s ≡ true → is_interrupted t ≡ true
    lasts _ _ completing h = h
    lasts _ _ interrupting h = refl
    lasts _ _ exhausting h = h
    lasts _ _ grading_first h = h
    lasts _ _ grading_late h = h

module _ (p : Status → Bool) (lasting : IsLasting p) (i : ℕ) where
  abbrev is_at : Attempt → Bool
  is_at a = a.id == i && p a.status

  is_at-kept : (a b : Attempt) → b.id ≡ a.id → b.status ≡ a.status → is_at b ≡ is_at a
  is_at-kept a b same status = rw (same, status) refl

  is_at-moved :
      (a b : Attempt) → b.id ≡ a.id → Move a.status b.status → is_at a ≡ true → is_at b ≡ true
  is_at-moved a b same move h =
      let lasts = lasting.lasts a.status b.status move (ground arith) in ground arith

  is_at-started : (a : Attempt) → a.status ≡ in_progress → is_at a ≡ false
  is_at-started a h = rw h (ground (arith, lasting.later))

  Evolves-lasts : {xs ys : List Attempt} → Evolves xs ys → any is_at xs ≡ true → any is_at ys ≡ true
  Evolves-lasts unchanged h = h
  Evolves-lasts (started a e) h = cc
  Evolves-lasts (kept a b same status rest) h =
      ground (arith, is_at-kept a b same status, Evolves-lasts rest)
  Evolves-lasts (moved a b same move rest) h =
      ground (arith, is_at-moved a b same move, Evolves-lasts rest)
  Evolves-lasts (deleted a e rest) h = ground (arith, is_at-started a e, Evolves-lasts rest)

module _ (u : Unicode) (v : Commentary.Unicode) (p : Status → Bool) (lasting : IsLasting p) where
  perform_all-lasts :
      (actions : List Action) (w : World) (i : ℕ)
      → any (λ a. a.id == i && p a.status) w.db.attempts ≡ true
      → any (λ a. a.id == i && p a.status) (perform_all u v actions w).db.attempts ≡ true
  unfolding perform_all
  perform_all-lasts [] w i h = h
  perform_all-lasts (action ∷ actions) w i h =
      perform_all-lasts actions (perform u v action w) i
        (Evolves-lasts p lasting i (perform-Evolves u v action w) h)

-- Once a call is completed, its attempt counts as done ever after: no sequence of admissions,
-- completions, interruptions, gradings and exhausted gradings, of this attempt or others, brings it
-- back in progress, voids it or deletes it.
pub completed_stays :
    (u : Unicode) (v : Commentary.Unicode) (actions : List Action) (w : World) (i : ℕ)
    → any (λ a. a.id == i && is_done a.status) w.db.attempts ≡ true
    → any (λ a. a.id == i && is_done a.status) (perform_all u v actions w).db.attempts ≡ true
completed_stays u v = perform_all-lasts u v is_done done-IsLasting

-- A voided attempt is never completed nor deleted: it counts as interrupted ever after.
pub interrupted_stays :
    (u : Unicode) (v : Commentary.Unicode) (actions : List Action) (w : World) (i : ℕ)
    → any (λ a. a.id == i && is_interrupted a.status) w.db.attempts ≡ true
    → any (λ a. a.id == i && is_interrupted a.status) (perform_all u v actions w).db.attempts ≡ true
interrupted_stays u v = perform_all-lasts u v is_interrupted interrupted-IsLasting
