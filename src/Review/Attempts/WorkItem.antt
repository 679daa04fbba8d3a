-- ===== src/Review/Attempts/WorkItem.antt =====
-- src/bluelab/modules/review/attempts.py: what a work item guarantees to its grading.
use bluelab_backend_prod.Prelude.{
  ℕ, ◌≤◌, ◌≡◌, ◌∙◌, ◌+◌, ◌⊎◌, ◌&&◌, Bool, ap, any, count_if, if◌then◌else◌, ==_iff, refl, subst,
  true, false, some, List, [], ◌∷◌, map, ◌==◌, leb, find, keep, sum, All, ok, arith, Bool-cases,
  Option-cases, Result-cases, inl, inr,
}
use bluelab_backend_prod.Prelude.Members.{All-mono, find-some}
use bluelab_backend_prod.Calls.Database.{
  Status, completed, grading_pending, graded, in_progress, interrupted, Attempt, TranscriptEntry,
}
use bluelab_backend_prod.Review.Scorecard.{is_gradable}
use bluelab_backend_prod.Review.Evaluation.{RubricDimensionInput, TranscriptSignal, is_empty}
use bluelab_backend_prod.Review.Attempts.{
  GradingTables, GradingWorkItem, FrozenDrill, RubricRow, dimension_of, signal_of, insert_entry,
  transcript_rows, rubric_rows, is_waiting, work_item_of, grading_work_item,
}

-- The entries are in the order of their `seq`.
abbrev pub IsBySeq : List TranscriptSignal → Type 0
IsBySeq [] = Unit
IsBySeq (s ∷ ss) = All (λ x. s.seq ≤ x.seq) ss × IsBySeq ss

-- The transcript holds what the attempt's entries are, however often.
gradable-cases : (s : Status) → is_gradable s ≡ true → (s ≡ completed) ⊎ (s ≡ grading_pending)
gradable-cases completed h = inl refl
gradable-cases grading_pending h = inr refl
gradable-cases in_progress h = cc
gradable-cases graded h = cc
gradable-cases interrupted h = cc

count-insert_entry :
    (p : TranscriptSignal → Bool) (e : TranscriptEntry) (es : List TranscriptEntry)
    → count_if p (map signal_of (insert_entry e es))
      ≡ (if p (signal_of e) then 1 else 0) + count_if p (map signal_of es)
unfolding insert_entry
count-insert_entry p e [] = ground arith
count-insert_entry p e (x ∷ es) = elim (Bool-cases (leb e.seq x.seq)) [
  | inl here ↦ rw here refl
  | inr later ↦ rw (later, count-insert_entry p e es) (omega arith)
]

count-transcript_rows :
    (p : TranscriptSignal → Bool) (attempt : ℕ) (es : List TranscriptEntry)
    → count_if p (map signal_of (transcript_rows (keep (λ e. e.attempt == attempt) es)))
      ≡ count_if (λ e. e.attempt == attempt && p (signal_of e)) es
unfolding transcript_rows
count-transcript_rows p attempt [] = refl
count-transcript_rows p attempt (e ∷ es) = elim (Bool-cases (e.attempt == attempt)) [
  | inl own ↦
      let more = count-insert_entry p e (transcript_rows (keep (λ x. x.attempt == attempt) es)) in
      rw own (
        more
        ∙ ap (λ n. (if p (signal_of e) then 1 else 0) + n) (count-transcript_rows p attempt es))
  | inr other ↦ rw other (omega (arith, count-transcript_rows p attempt es))
]

is_waiting-cases :
    (t : GradingTables) (a : Attempt)
    → is_waiting t a ≡ true
    → ((a.status ≡ completed) ⊎ (a.status ≡ grading_pending))
      × (any (λ s. s.attempt == a.id) t.scorecards ≡ false)
unfolding is_waiting
is_waiting-cases t a h = (gradable-cases a.status (ground arith), ground arith)

weights-kept :
    (rows : List RubricRow)
    → sum (map RubricDimensionInput.weight (map dimension_of rows))
      ≡ sum (map RubricRow.weight rows)
weights-kept [] = refl
weights-kept (r ∷ rows) = ground (arith, weights-kept rows)

All-insert_entry :
    (n : ℕ) (e : TranscriptEntry) (es : List TranscriptEntry)
    → n ≤ e.seq
    → All (λ x. n ≤ x.seq) (map signal_of es)
    → All (λ x. n ≤ x.seq) (map signal_of (insert_entry e es))
unfolding insert_entry
All-insert_entry n e [] low h = (low, tt)
All-insert_entry n e (x ∷ es) low h = elim (Bool-cases (leb e.seq x.seq)) [
  | inl here ↦ rw here (low, h)
  | inr later ↦ rw later (h.0, All-insert_entry n e es low h.1)
]

insert_entry-IsBySeq :
    (e : TranscriptEntry) (es : List TranscriptEntry)
    → IsBySeq (map signal_of es)
    → IsBySeq (map signal_of (insert_entry e es))
unfolding insert_entry
insert_entry-IsBySeq e [] h = (tt, tt)
insert_entry-IsBySeq e (x ∷ es) h = elim (Bool-cases (leb e.seq x.seq)) [
  | inl here ↦ rw here (
    (
      ground arith,
      All-mono (λ y. x.seq ≤ y.seq) (λ y. e.seq ≤ y.seq) (map signal_of es) (λ y low. ground arith)
          h.0,
    ),
    h,
  )
  | inr later ↦
      rw later (All-insert_entry x.seq e es (ground arith) h.0, insert_entry-IsBySeq e es h.1)
]

transcript_rows-IsBySeq : (es : List TranscriptEntry) → IsBySeq (map signal_of (transcript_rows es))
unfolding transcript_rows
transcript_rows-IsBySeq [] = tt
transcript_rows-IsBySeq (e ∷ es) =
    insert_entry-IsBySeq e (transcript_rows es) (transcript_rows-IsBySeq es)

not_empty-map {ℓ κ} :
    {A : Type ℓ} {B : Type κ} (f : A → B) (xs : List A) → is_empty (map f xs) ≡ is_empty xs
not_empty-map f [] = refl
not_empty-map f (x ∷ xs) = refl

work_item_of-basis :
    (t : GradingTables) (a : Attempt) (d : FrozenDrill) {w : GradingWorkItem}
    → work_item_of t a d ≡ ok w
    → (sum (map RubricDimensionInput.weight w.basis.rubric) ≡ 100)
      × (is_empty w.basis.rubric ≡ false)
      × (is_empty w.basis.transcript ≡ false)
      × (w.basis.transcript
          ≡ map signal_of (transcript_rows (keep (λ e. e.attempt == a.id) t.transcript)))
      × (a.ended_at ≡ some w.ended_at)
unfolding work_item_of
work_item_of-basis t a d {w} e =
    let rubric = rubric_rows d.rubric in
    let entries = transcript_rows (keep (λ e. e.attempt == a.id) t.transcript) in
    elim (Option-cases a.ended_at) [
      | inl never ↦ ground arith
      | inr (ended, at) ↦ (
        ground (arith, weights-kept rubric),
        ground (arith, not_empty-map dimension_of rubric),
        ground (arith, not_empty-map signal_of entries),
        ground arith,
        ground arith,
      )
    ]

-- A work item is only made of an attempt that is waiting for its grading: it is known, is completed
-- or pending, and has no scorecard. Its rubric is not empty, its weights sum to 100, and its
-- transcript is not empty, is in the order of its `seq`, and holds exactly the entries of that
-- attempt: of those that pass any given test it has as many as the table.
pub work_item_sound :
    (t : GradingTables) (attempt : ℕ) (p : TranscriptSignal → Bool) {w : GradingWorkItem}
    → grading_work_item t attempt ≡ ok (some w)
    → ((a : Attempt) × (find (λ x. x.id == attempt) t.attempts ≡ some a)
        × ((a.status ≡ completed) ⊎ (a.status ≡ grading_pending))
        × (any (λ s. s.attempt == attempt) t.scorecards ≡ false))
      × (sum (map RubricDimensionInput.weight w.basis.rubric) ≡ 100)
      × (is_empty w.basis.rubric ≡ false)
      × (is_empty w.basis.transcript ≡ false)
      × IsBySeq w.basis.transcript
      × (count_if p w.basis.transcript
          ≡ count_if (λ e. e.attempt == attempt && p (signal_of e)) t.transcript)
unfolding grading_work_item
work_item_sound t attempt p {w} e = elim (Option-cases (find (λ a. a.id == attempt) t.attempts)) [
  | inl unknown ↦ ground arith
  | inr (a, known) ↦ elim (Option-cases (find (λ d. d.id == a.drill) t.drills)) [
    | inl no_drill ↦ ground arith
    | inr (d, frozen) ↦ elim (Bool-cases (is_waiting t a)) [
      | inr over ↦ ground arith
      | inl waiting ↦ elim (Result-cases (work_item_of t a d)) [
        | inr (bad, failed) ↦ ground arith
        | inl (v, made) ↦
            let same : v ≡ w = ground arith in
            let (status, scored) = is_waiting-cases t a waiting in
            let own : a.id ≡ attempt =
              (==_iff a.id attempt).0 (find-some (λ x. x.id == attempt) t.attempts {a = a} known) in
            let (weights, rubric, lines, rows, ended) =
              work_item_of-basis t a d {w = w} (subst (λ x. work_item_of t a d ≡ ok x) same made) in
            (
              (a, known, status, rw (← own) scored),
              weights,
              rubric,
              lines,
              rw rows (transcript_rows-IsBySeq (keep (λ e. e.attempt == a.id) t.transcript)),
              rw (← own) (rw rows (count-transcript_rows p a.id t.transcript)),
            )
      ]
    ]
  ]
]
