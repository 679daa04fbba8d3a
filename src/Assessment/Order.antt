-- ===== src/Assessment/Order.antt =====
-- src/bluelab/modules/assessment/service.py: the first open stage of the ordered rows is the one
-- that the admission's `order by ord limit 1` selects.
use bluelab_backend_prod.Prelude.{
  ℕ, ◌≤◌, ◌≡◌, refl, Bool, Option, none, some, List, [], ◌∷◌, ltb, leb, find, keep, if◌then◌else◌,
  All, arith, Bool-cases, Option-cases, inl, inr,
}
use bluelab_backend_prod.Prelude.Members.{All-mono}
use bluelab_backend_prod.Calls.Database.{Stage}
use bluelab_backend_prod.Calls.Admission.{first_by_ord}
use bluelab_backend_prod.Assessment.{insert_by_ord, by_ord}

-- Ordered by place.
abbrev IsOrdered : List Stage → Type 0
IsOrdered [] = Unit
IsOrdered (st ∷ sts) = All (λ x. st.ord ≤ x.ord) sts × IsOrdered sts

All-insert :
    (n : ℕ) (st : Stage) (sts : List Stage)
    → n ≤ st.ord
    → All (λ x. n ≤ x.ord) sts
    → All (λ x. n ≤ x.ord) (insert_by_ord st sts)
unfolding insert_by_ord
All-insert n st [] low h = (low, tt)
All-insert n st (x ∷ sts) low h = elim (Bool-cases (leb st.ord x.ord)) [
  | inl here ↦ rw here (low, h)
  | inr later ↦ rw later (h.0, All-insert n st sts low h.1)
]

insert-IsOrdered :
    (st : Stage) (sts : List Stage) → IsOrdered sts → IsOrdered (insert_by_ord st sts)
unfolding insert_by_ord
insert-IsOrdered st [] h = (tt, tt)
insert-IsOrdered st (x ∷ sts) h = elim (Bool-cases (leb st.ord x.ord)) [
  | inl here ↦ rw here (
    (
      ground arith,
      All-mono (λ y. x.ord ≤ y.ord) (λ y. st.ord ≤ y.ord) sts (λ y low. ground arith) h.0,
    ),
    h,
  )
  | inr later ↦ rw later (All-insert x.ord st sts (ground arith) h.0, insert-IsOrdered st sts h.1)
]

by_ord-IsOrdered : (sts : List Stage) → IsOrdered (by_ord sts)
unfolding by_ord
by_ord-IsOrdered [] = tt
by_ord-IsOrdered (st ∷ sts) = insert-IsOrdered st (by_ord sts) (by_ord-IsOrdered sts)

-- What `order by … limit 1` keeps of a first row and of the best of the rest.
abbrev best : Stage → Option Stage → Option Stage
best st none = some st
best st (some b) = if ltb b.ord st.ord then some b else some st

module _ (p : Stage → Bool) where
  find-above :
      (n : ℕ) (sts : List Stage) {b : Stage}
      → All (λ x. n ≤ x.ord) sts
      → find p sts ≡ some b
      → n ≤ b.ord
  find-above n [] h e = cc
  find-above n (x ∷ sts) {b} h e = elim (Bool-cases (p x)) [
    | inl here ↦ ground arith
    | inr later ↦ find-above n sts {b = b} h.1 (ground arith)
  ]

  best-first :
      (st : Stage) (sts : List Stage)
      → All (λ x. st.ord ≤ x.ord) sts
      → best st (find p sts) ≡ some st
  best-first st sts h = elim (Option-cases (find p sts)) [
    | inl empty ↦ rw empty refl
    | inr (b, found) ↦ rw found (ground (arith, find-above st.ord sts {b = b} h found))
  ]

  find-insert :
      (st : Stage) (sts : List Stage)
      → IsOrdered sts
      → find p (insert_by_ord st sts) ≡ (if p st then best st (find p sts) else find p sts)
  unfolding insert_by_ord
  find-insert st [] h = ground arith
  find-insert st (x ∷ sts) h = elim (Bool-cases (leb st.ord x.ord)) [
    | inl here ↦ rw here (
        ground (
          arith,
          best-first st (x ∷ sts) (
            ground arith,
            All-mono (λ y. x.ord ≤ y.ord) (λ y. st.ord ≤ y.ord) sts (λ y low. ground arith) h.0,
          ),
        ))
    | inr later ↦ rw later (ground (arith, find-insert st sts h.1))
  ]

  -- The first row that passes a test, of the rows in order, is the least one that passes it.
  pub find-by_ord : (sts : List Stage) → find p (by_ord sts) ≡ first_by_ord (keep p sts)
  unfolding by_ord first_by_ord
  find-by_ord [] = refl
  find-by_ord (st ∷ sts) =
      ground (arith, find-insert st (by_ord sts) (by_ord-IsOrdered sts), find-by_ord sts)
