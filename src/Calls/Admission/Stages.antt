-- ===== src/Calls/Admission/Stages.antt =====
-- src/bluelab/calls/admission.py: a candidate takes the stages in order.
use bluelab_backend_prod.Prelude.{
  ℕ, ◌≤◌, ◌≡◌, refl, Bool, none, some, List, [], ◌∷◌, ◌==◌, ltb, any, ◌&&◌, All, arith,
  Option-cases, Bool-cases, ◌⊎◌, inl, inr,
}
use bluelab_backend_prod.Prelude.Members.{All-mono}
use bluelab_backend_prod.Calls.Database.{Stage}
use bluelab_backend_prod.Calls.Admission.{first_by_ord}

first_by_ord-none : (sts : List Stage) → first_by_ord sts ≡ none → sts ≡ []
unfolding first_by_ord
first_by_ord-none [] e = refl
first_by_ord-none (st ∷ sts) e = ground arith

-- The first of a longer list is its head or the first of the rest, by their places in the order.
first_by_ord-cons :
    (st : Stage) (sts : List Stage) {best : Stage}
    → first_by_ord (st ∷ sts) ≡ some best
    → ((best ≡ st) × (sts ≡ []))
      ⊎ ((b : Stage) × (first_by_ord sts ≡ some b)
          × (best.ord ≤ st.ord)
          × (best.ord ≤ b.ord)
          × ((best ≡ st) ⊎ (best ≡ b)))
unfolding first_by_ord
first_by_ord-cons st sts {best} e = elim (Option-cases (first_by_ord sts)) [
  | inl empty ↦ inl (ground arith, first_by_ord-none sts empty)
  | inr (b, found) ↦ elim (Bool-cases (ltb b.ord st.ord)) [
    | inl lower ↦
        let same : best ≡ b = ground arith in inr (b, found, ground arith, ground arith, inr same)
    | inr kept ↦
        let same : best ≡ st = ground arith in inr (b, found, ground arith, ground arith, inl same)
  ]
]

module _ {κ} (P : Stage → Type κ) where
  pub first_by_ord-All :
      (sts : List Stage) {best : Stage} → All P sts → first_by_ord sts ≡ some best → P best
  unfolding first_by_ord
  first_by_ord-All [] h e = cc
  first_by_ord-All (st ∷ sts) h e = elim (first_by_ord-cons st sts e) [
    | inl (same, empty) ↦ rw same h.0
    | inr (b, found, low, lower, inl same) ↦ rw same h.0
    | inr (b, found, low, lower, inr same) ↦ rw same (first_by_ord-All sts h.1 found)
  ]

pub first_by_ord-least :
    (sts : List Stage) {best : Stage}
    → first_by_ord sts ≡ some best
    → All (λ st. best.ord ≤ st.ord) sts
first_by_ord-least [] e = tt
first_by_ord-least (st ∷ sts) {best} e = elim (first_by_ord-cons st sts e) [
  | inl (same, empty) ↦ (rw same (omega arith), rw empty tt)
  | inr (b, found, low, lower, which) ↦ (
    low,
    All-mono (λ x. b.ord ≤ x.ord) (λ x. best.ord ≤ x.ord) sts (λ x h. omega arith)
        (first_by_ord-least sts found),
  )
]

-- One of the given stages is the stage of a place in the order.
abbrev pub has_place : ℕ → ℕ → List Stage → Bool
has_place stage place sts = any (λ st. st.id == stage && st.ord == place) sts
