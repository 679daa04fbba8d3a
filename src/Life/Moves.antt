-- ===== src/Life/Moves.antt =====
-- The statements of src/bluelab/calls and src/bluelab/modules/review that write attempts make
-- allowed moves only.
use bluelab_backend_prod.Prelude.{
  ℕ, ◌≡◌, refl, sym, subst, String, true, ◌&&◌, not, Option, List, [], ◌∷◌, ◌++◌, ◌==◌, keep, arith,
  Bool-cases, inl, inr, ◌⊎◌,
}
use bluelab_backend_prod.Calls.Database.{
  Attempt, Status, in_progress, completed, grading_pending, graded, interrupted, is_in_progress,
}
use bluelab_backend_prod.Calls.Completion.{complete_attempts}
use bluelab_backend_prod.Calls.Interruption.{is_live, void_attempts}
use bluelab_backend_prod.Review.Attempts.{mark_pending}
use bluelab_backend_prod.Review.Scorecard.{is_gradable, mark_graded}
use bluelab_backend_prod.Life.{
  Move, completing, interrupting, exhausting, grading_first, grading_late, Evolves, unchanged,
  started, kept, moved, deleted,
}

is_in_progress-eq : (s : Status) → is_in_progress s ≡ true → s ≡ in_progress
is_in_progress-eq in_progress h = refl
is_in_progress-eq completed h = cc
is_in_progress-eq grading_pending h = cc
is_in_progress-eq graded h = cc
is_in_progress-eq interrupted h = cc

is_gradable-eq : (s : Status) → is_gradable s ≡ true → (s ≡ completed) ⊎ (s ≡ grading_pending)
is_gradable-eq completed h = inl refl
is_gradable-eq grading_pending h = inr refl
is_gradable-eq in_progress h = cc
is_gradable-eq graded h = cc
is_gradable-eq interrupted h = cc

pub Evolves-refl : (rows : List Attempt) → Evolves rows rows
Evolves-refl [] = unchanged
Evolves-refl (a ∷ rows) = kept a a refl refl (Evolves-refl rows)

pub Evolves-start :
    (a : Attempt) (rows : List Attempt) → a.status ≡ in_progress → Evolves rows (rows ++ a ∷ [])
Evolves-start a [] h = started a h
Evolves-start a (b ∷ rows) h = kept b b refl refl (Evolves-start a rows h)

pub Evolves-complete :
    (attempt ended duration : ℕ) (object : Option String) (rows : List Attempt)
    → Evolves rows (complete_attempts attempt ended duration object rows)
unfolding complete_attempts
Evolves-complete attempt ended duration object [] = unchanged
Evolves-complete attempt ended duration object (a ∷ rows) =
    let rest = Evolves-complete attempt ended duration object rows in
    elim (Bool-cases (a.id == attempt && is_in_progress a.status)) [
      | inl here ↦ rw here (
          moved a _ refl
            (subst (λ s. Move s completed) (sym (is_in_progress-eq a.status (ground arith)))
              completing)
            rest)
      | inr other ↦ rw other (kept a a refl refl rest)
    ]

pub Evolves-void :
    (now attempt : ℕ) (rows : List Attempt) → Evolves rows (void_attempts now attempt rows)
unfolding void_attempts is_live
Evolves-void now attempt [] = unchanged
Evolves-void now attempt (a ∷ rows) =
    let rest = Evolves-void now attempt rows in
    elim (Bool-cases (a.id == attempt && is_in_progress a.status)) [
      | inl here ↦ rw here (
          moved a _ refl
            (subst (λ s. Move s interrupted) (sym (is_in_progress-eq a.status (ground arith)))
              interrupting)
            rest)
      | inr other ↦ rw other (kept a a refl refl rest)
    ]

pub Evolves-delete :
    (attempt : ℕ) (rows : List Attempt) → Evolves rows (keep (λ a. not (is_live attempt a)) rows)
unfolding is_live
Evolves-delete attempt [] = unchanged
Evolves-delete attempt (a ∷ rows) =
    let rest = Evolves-delete attempt rows in
    elim (Bool-cases (a.id == attempt && is_in_progress a.status)) [
      | inl here ↦ rw here (deleted a (is_in_progress-eq a.status (ground arith)) rest)
      | inr other ↦ rw other (kept a a refl refl rest)
    ]

pub Evolves-grade : (attempt : ℕ) (rows : List Attempt) → Evolves rows (mark_graded attempt rows)
unfolding mark_graded
Evolves-grade attempt [] = unchanged
Evolves-grade attempt (a ∷ rows) =
    let rest = Evolves-grade attempt rows in
    elim (Bool-cases (a.id == attempt && is_gradable a.status)) [
      | inl here ↦ rw here (
          moved a _ refl
            (elim (is_gradable-eq a.status (ground arith)) [
              | inl done ↦ subst (λ s. Move s graded) (sym done) grading_first
              | inr late ↦ subst (λ s. Move s graded) (sym late) grading_late
            ])
            rest)
      | inr other ↦ rw other (kept a a refl refl rest)
    ]

pub Evolves-exhaust : (attempt : ℕ) (rows : List Attempt) → Evolves rows (mark_pending attempt rows)
unfolding mark_pending
Evolves-exhaust attempt [] = unchanged
Evolves-exhaust attempt (a ∷ rows) =
    let rest = Evolves-exhaust attempt rows in
    elim (Bool-cases (a.id == attempt && is_gradable a.status)) [
      | inl here ↦ rw here (elim (is_gradable-eq a.status (ground arith)) [
        | inl first ↦
            moved a _ refl (subst (λ s. Move s grading_pending) (sym first) exhausting) rest
        | inr again ↦ kept a _ refl (sym again) rest
      ])
      | inr other ↦ rw other (kept a a refl refl rest)
    ]
