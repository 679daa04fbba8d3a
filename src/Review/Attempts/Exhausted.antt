-- ===== src/Review/Attempts/Exhausted.antt =====
-- src/bluelab/modules/review/attempts.py: an exhausted grading is reported once.
use bluelab_backend_prod.Prelude.{
  ℕ, ◌+◌, ◌≡◌, ◌≤◌, refl, subst, Bool, true, false, ◌&&◌, none, some, List, [], ◌∷◌, ◌++◌, ◌==◌,
  any, count_if, find, if◌then◌else◌, arith, Bool-cases, Option-cases, inl, inr, ==_refl,
}
use bluelab_backend_prod.Calls.Database.{Attempt}
use bluelab_backend_prod.Review.Attempts.{
  GradingFault, mark_pending, open_grading_fault, mark_grading_exhausted,
}

-- An open fault of an attempt.
abbrev pub is_open_of : ℕ → GradingFault → Bool
is_open_of attempt f = f.attempt == attempt && f.is_open

mark_pending-twice :
    (attempt : ℕ) (rows : List Attempt)
    → mark_pending attempt (mark_pending attempt rows) ≡ mark_pending attempt rows
unfolding mark_pending
mark_pending-twice attempt [] = refl
mark_pending-twice attempt (a ∷ rows) = ground (arith, mark_pending-twice attempt rows)

any-append_last :
    (p : GradingFault → Bool) (fs : List GradingFault) (f : GradingFault)
    → p f ≡ true
    → any p (fs ++ f ∷ []) ≡ true
any-append_last p [] f h = ground arith
any-append_last p (x ∷ fs) f h = ground (arith, any-append_last p fs f)

count-append_last :
    (p : GradingFault → Bool) (fs : List GradingFault) (f : GradingFault)
    → count_if p (fs ++ f ∷ []) ≡ count_if p fs + (if p f then 1 else 0)
count-append_last p [] f = ground arith
count-append_last p (x ∷ fs) f = ground (arith, count-append_last p fs f)

count-zero :
    (p : GradingFault → Bool) (fs : List GradingFault) → any p fs ≡ false → count_if p fs ≡ 0
count-zero p [] h = refl
count-zero p (x ∷ fs) h = ground (arith, count-zero p fs)

-- A known attempt has an open fault afterwards.
open_grading_fault-opens :
    (id attempt retries : ℕ) (rows : List Attempt) (faults : List GradingFault) {a : Attempt}
    → find (λ x. x.id == attempt) rows ≡ some a
    → any (is_open_of attempt) (open_grading_fault id attempt retries rows faults) ≡ true
unfolding open_grading_fault
open_grading_fault-opens id attempt retries rows faults {a} known =
    elim (Bool-cases (any (is_open_of attempt) faults)) [
      | inl reported ↦ ground arith
      | inr quiet ↦
          let f : GradingFault = record {
            id = id;
            org = a.org;
            attempt = attempt;
            is_open = true;
            retry_count = retries;
          } in
          ground
            (arith, any-append_last (is_open_of attempt) faults f (ground (arith, ==_refl attempt)))
    ]

open_grading_fault-count :
    (id attempt retries other : ℕ) (rows : List Attempt) (faults : List GradingFault)
    → count_if (is_open_of other) faults ≤ 1
    → count_if (is_open_of other) (open_grading_fault id attempt retries rows faults) ≤ 1
unfolding open_grading_fault
open_grading_fault-count id attempt retries other rows faults h =
    elim (Option-cases (find (λ a. a.id == attempt) rows)) [
      | inl unknown ↦ ground arith
      | inr (a, known) ↦ elim (Bool-cases (any (is_open_of attempt) faults)) [
        | inl reported ↦ ground arith
        | inr quiet ↦
            let f : GradingFault = record {
              id = id;
              org = a.org;
              attempt = attempt;
              is_open = true;
              retry_count = retries;
            } in
            let added = count-append_last (is_open_of other) faults f in
            elim (Bool-cases (attempt == other)) [
              | inl mine ↦
                  let same : attempt ≡ other = ground arith in
                  let empty =
                    count-zero (is_open_of other) faults
                      (subst (λ i. any (is_open_of i) faults ≡ false) same quiet) in
                  ground (arith, added, empty)
              | inr stranger ↦ ground (arith, added)
            ]
      ]
    ]

open_grading_fault-unknown :
    (id attempt retries : ℕ) (rows : List Attempt) (faults : List GradingFault)
    → find (λ x. x.id == attempt) rows ≡ none
    → open_grading_fault id attempt retries rows faults ≡ faults
unfolding open_grading_fault
open_grading_fault-unknown id attempt retries rows faults h = ground arith

open_grading_fault-again :
    (id attempt retries : ℕ) (rows : List Attempt) (faults : List GradingFault)
    → any (is_open_of attempt) faults ≡ true
    → open_grading_fault id attempt retries rows faults ≡ faults
unfolding open_grading_fault
open_grading_fault-again id attempt retries rows faults h =
    elim (Option-cases (find (λ a. a.id == attempt) rows)) [
      | inl unknown ↦ ground arith
      | inr (a, known) ↦ ground arith
    ]

replayed :
    (id attempt retries id' retries' : ℕ) (rows : List Attempt) (faults : List GradingFault)
    → open_grading_fault id' attempt retries' rows
        (open_grading_fault id attempt retries rows faults)
      ≡ open_grading_fault id attempt retries rows faults
replayed id attempt retries id' retries' rows faults =
    elim (Option-cases (find (λ x. x.id == attempt) rows)) [
      | inl unknown ↦
          open_grading_fault-unknown id' attempt retries' rows
            (open_grading_fault id attempt retries rows faults) unknown
      | inr (a, known) ↦
          open_grading_fault-again id' attempt retries' rows
            (open_grading_fault id attempt retries rows faults)
            (open_grading_fault-opens id attempt retries rows faults {a = a} known)
    ]

-- A replayed exhaustion, with any id and count of retries, changes nothing, whether the attempt is
-- known or not; and while an attempt has at most one open fault, it has at most one afterwards.
pub exhausted_once :
    (id attempt retries id' retries' other : ℕ) (rows : List Attempt) (faults : List GradingFault)
    → count_if (is_open_of other) faults ≤ 1
    → let after = mark_grading_exhausted id attempt retries (rows, faults) in
      (mark_grading_exhausted id' attempt retries' after ≡ after)
      × (count_if (is_open_of other) after.1 ≤ 1)
unfolding mark_grading_exhausted
exhausted_once id attempt retries id' retries' other rows faults h =
    let pending = mark_pending attempt rows in
    let same = mark_pending-twice attempt rows in
    (
      rw (same, replayed id attempt retries id' retries' pending faults) refl,
      open_grading_fault-count id attempt retries other pending faults h,
    )
