-- ===== src/Subjects/Runs.antt =====
-- src/bluelab/lifecycle/subject_states.py: the decisions over any sequence of steps. A request that
-- is closed stays as it is.
use bluelab_backend_prod.Prelude.{
  ℕ, ◌≡◌, refl, sym, subst, Bool, true, false, ◌&&◌, some, List, [], ◌∷◌, ◌++◌, ◌==◌, any, find,
  All, if◌then◌else◌, Result, ok, err, arith, Bool-cases, Option-cases, Result-cases, inl, inr,
  if-both,
}
use bluelab_backend_prod.Subjects.{
  RequestKind, RequestStatus, same_status, is_terminal, Request, Operation, Tables, Command,
  find_request, is_pending_op, op_rejected, op_applied, StateProblem,
}
use bluelab_backend_prod.Prelude.Members.{All-last}
use bluelab_backend_prod.Subjects.Apply.{HistoryEvent, apply, apply_writes, reject}
use bluelab_backend_prod.Subjects.Moves.{
  IsClosable, new_request, waiting_request, failed_request, ready_export, IsMove, new_asks,
  failed_asks, waiting_returns, failed_returns, delivers, rejects_it, withdraws, Moves, still, kept,
  moved, Moves-refl, IsLawful, same_status-eq, apply-Moves, apply-ok, update_first-IsLawful,
}
use bluelab_backend_prod.Subjects.Prepare.{Decision, new_operation, prepare}
use bluelab_backend_prod.Subjects.Replay.{new_operation-IsLawful}

prepare-IsLawful :
    (digest : RequestKind → ℕ → Command → ℕ) (now : ℕ) (d : Decision) (t : Tables) {t' : Tables}
    {o : Operation}
    → All IsLawful t.operations
    → prepare digest now d t ≡ ok (t', o)
    → All IsLawful t'.operations × (t'.requests ≡ t.requests)
unfolding prepare
prepare-IsLawful digest now d t {t'} {o} law h =
    elim (Option-cases (find_request d.kind d.request_id t.requests)) [
      | inl unknown ↦ absurd (ground arith)
      | inr (r, asked) ↦ elim (Option-cases (find (λ x. x.id == d.operation_id) t.operations)) [
        | inr (old, staged) ↦ (let same : t ≡ t' = ground arith in rw (sym same) (law, refl))
        | inl fresh ↦ elim (Result-cases (new_operation digest now d r t)) [
          | inr (bad, wrong) ↦ absurd (ground arith)
          | inl (new, made) ↦
              let written : record t { operations = t.operations ++ new ∷ [] } ≡ t' =
                ground arith in
              rw (sym written) (
                All-last IsLawful t.operations new law
                    (new_operation-IsLawful digest now d t r {o = new} made).5,
                refl,
              )
        ]
      ]
    ]

pub data Action : Type 0 where
  prepares : ℕ → Decision → Action
  applies : ℕ → HistoryEvent → Action
  rejects : ℕ → Action

abbrev pub after_prepare : Tables → Result StateProblem (Tables × Operation) → Tables
after_prepare t (ok (t', o)) = t'
after_prepare t (err e) = t

abbrev pub after_apply : Tables → Result StateProblem (Tables × RequestKind × ℕ) → Tables
after_apply t (ok (t', kind, i)) = t'
after_apply t (err e) = t

-- One step; an error rolls it back.
unfoldable pub perform : (RequestKind → ℕ → Command → ℕ) → Action → Tables → Tables
perform digest (prepares now d) t = after_prepare t (prepare digest now d t)
perform digest (applies id e) t = after_apply t (apply id e t)
perform digest (rejects id) t = reject id t

apply_writes-IsLawful :
    (o : Operation) (e : HistoryEvent) (t : Tables)
    → All IsLawful t.operations
    → All IsLawful (apply_writes o e t).operations
unfolding apply_writes
apply_writes-IsLawful o e t law =
    update_first-IsLawful (λ x. x.id == o.id)
      (λ x. record x { status = op_applied; resulting_sequence = some e.sequence }) t.operations
      (λ x. refl) law

reject-IsLawful :
    (id : ℕ) (t : Tables)
    → All IsLawful t.operations
    → All IsLawful (reject id t).operations × ((reject id t).requests ≡ t.requests)
unfolding reject
reject-IsLawful id t law = (
  update_first-IsLawful (λ x. x.id == id)
      (λ x. if is_pending_op x.status then record x { status = op_rejected } else x) t.operations
      (λ x. if-both (λ (y : Operation). y.payload ≡ x.payload) (is_pending_op x.status) refl refl)
      law,
  refl,
)

-- Every step keeps the staged operations lawful: whatever operators stage, the history accepts or is
-- dropped, at most one request changes, and its status makes a move of requests: input is asked for
-- when it is new or has failed, it is put back when it waits for input or has failed, it is
-- delivered if it is an export that is ready, and it is rejected or withdrawn when it is new, waits,
-- has failed or is an export that is ready.
pub perform-Moves :
    (digest : RequestKind → ℕ → Command → ℕ) (action : Action) (t : Tables)
    → All IsLawful t.operations
    → Moves t.requests (perform digest action t).requests
      × All IsLawful (perform digest action t).operations
unfolding perform
perform-Moves digest (rejects id) t law =
    let (lawful, same) = reject-IsLawful id t law in (rw same (Moves-refl t.requests), lawful)
perform-Moves digest (prepares now d) t law = elim (Result-cases (prepare digest now d t)) [
  | inr (bad, wrong) ↦ rw (perform, wrong) (Moves-refl t.requests, law)
  | inl ((t', o), staged) ↦
      let (lawful, same) = prepare-IsLawful digest now d t {t' = t'} {o = o} law staged in
      rw (perform, staged, same) (Moves-refl t.requests, lawful)
]
perform-Moves digest (applies id e) t law = elim (Result-cases (apply id e t)) [
  | inr (bad, wrong) ↦ rw (perform, wrong) (Moves-refl t.requests, law)
  | inl ((t', kind, i), done) ↦
      rw (perform, done)
        (
          apply-Moves id e t {t' = t'} {kind = kind} {i = i} law done,
          elim (apply-ok id e t {t' = t'} {kind = kind} {i = i} done) [
            | inl same ↦ subst (λ x. All IsLawful x.operations) same law
            | inr (o, known, passed, written) ↦
                subst (λ x. All IsLawful x.operations) written (apply_writes-IsLawful o e t law)
          ],
        )
]

unfoldable pub perform_all : (RequestKind → ℕ → Command → ℕ) → List Action → Tables → Tables
perform_all digest [] t = t
perform_all digest (a ∷ rest) t = perform_all digest rest (perform digest a t)

IsClosable-not_terminal :
    {k : RequestKind} {s : RequestStatus} → IsClosable k s → is_terminal s ≡ false
IsClosable-not_terminal new_request = refl
IsClosable-not_terminal waiting_request = refl
IsClosable-not_terminal failed_request = refl
IsClosable-not_terminal ready_export = refl

-- No move leads out of a status that is closed.
closed-IsMove : {k : RequestKind} {s t : RequestStatus} → IsMove k s t → is_terminal s ≡ false
closed-IsMove new_asks = refl
closed-IsMove failed_asks = refl
closed-IsMove waiting_returns = refl
closed-IsMove failed_returns = refl
closed-IsMove delivers = refl
closed-IsMove (rejects_it c) = IsClosable-not_terminal c
closed-IsMove (withdraws c) = IsClosable-not_terminal c

abbrev pub is_in : ℕ → RequestStatus → Request → Bool
is_in i s r = r.id == i && same_status r.status s

Moves-closed :
    (i : ℕ) (s : RequestStatus) {xs ys : List Request}
    → is_terminal s ≡ true
    → Moves xs ys
    → any (is_in i s) xs ≡ true
    → any (is_in i s) ys ≡ true
Moves-closed i s shut still h = h
Moves-closed i s shut (kept r rest) h = ground (arith, Moves-closed i s shut rest)
Moves-closed i s shut (moved r r' same kind may) h = elim (Bool-cases (is_in i s r)) [
  | inr other ↦ ground arith
  | inl here ↦
      let at : r.status ≡ s = same_status-eq r.status s (ground arith) in
      let open' = closed-IsMove may in absurd (ground arith)
]

-- A request that was rejected, withdrawn or delivered stays so, whatever decisions are staged,
-- applied and dropped afterwards, as long as the operations staged before were lawful.
pub closed_stays :
    (digest : RequestKind → ℕ → Command → ℕ) (actions : List Action) (t : Tables) (i : ℕ)
    (s : RequestStatus)
    → All IsLawful t.operations
    → is_terminal s ≡ true
    → any (is_in i s) t.requests ≡ true
    → any (is_in i s) (perform_all digest actions t).requests ≡ true
unfolding perform_all
closed_stays digest [] t i s law shut h = h
closed_stays digest (a ∷ actions) t i s law shut h =
    let (moves, lawful) = perform-Moves digest a t law in
    closed_stays digest actions (perform digest a t) i s lawful shut (Moves-closed i s shut moves h)
