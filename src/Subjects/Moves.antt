-- ===== src/Subjects/Moves.antt =====
-- src/bluelab/lifecycle/subject_states.py: requests make allowed moves only.
use bluelab_backend_prod.Prelude.{
  ℕ, ◌≡◌, refl, sym, ap, subst, ◌∙◌, Bool, true, ◌||◌, ◌&&◌, some, List, [], ◌∷◌, ◌==◌, find, All,
  if◌then◌else◌, ok, arith, Bool-cases, Option-cases, Result-cases, inl, inr, ◌⊎◌,
}
use bluelab_backend_prod.Subjects.{
  RequestKind, erasure, export, RequestStatus, pending, processing, awaiting_input, ready, failed,
  executed, rejected, withdrawn, delivered, status_code, same_status, is_resting, is_export,
  same_kind, allowed, Request, Operation, Tables, update_first, is_applied_op,
}
use bluelab_backend_prod.Subjects.Apply.{
  HistoryEvent, is_target, moved_request, apply_writes, check_event, apply,
}

status_of_code : ℕ → RequestStatus
status_of_code n =
    if n == 0
    then pending
    else if n == 1
    then processing
    else if n == 2
    then awaiting_input
    else if n == 3
    then ready
    else if n == 4
    then failed
    else if n == 5
    then executed
    else if n == 6
    then rejected
    else if n == 7
    then withdrawn
    else delivered

status_of_code-status_code : (s : RequestStatus) → status_of_code (status_code s) ≡ s
unfolding status_of_code
status_of_code-status_code pending = refl
status_of_code-status_code processing = refl
status_of_code-status_code awaiting_input = refl
status_of_code-status_code ready = refl
status_of_code-status_code failed = refl
status_of_code-status_code executed = refl
status_of_code-status_code rejected = refl
status_of_code-status_code withdrawn = refl
status_of_code-status_code delivered = refl

pub same_status-eq : (a b : RequestStatus) → same_status a b ≡ true → a ≡ b
same_status-eq a b h =
    let same : status_code a ≡ status_code b = ground arith in
    sym (status_of_code-status_code a) ∙ ap status_of_code same ∙ status_of_code-status_code b

same_kind-eq : (a b : RequestKind) → same_kind a b ≡ true → a ≡ b
same_kind-eq erasure erasure h = refl
same_kind-eq export export h = refl
same_kind-eq erasure export h = cc
same_kind-eq export erasure h = cc

-- Where a request stands that waits for an operator: it can be closed, and so can an export that
-- is ready.
pub data IsClosable : RequestKind → RequestStatus → Type 0 where
  new_request : {k : RequestKind} → IsClosable k pending
  waiting_request : {k : RequestKind} → IsClosable k awaiting_input
  failed_request : {k : RequestKind} → IsClosable k failed
  ready_export : IsClosable export ready

-- The moves of a request: input is asked for when it is new or has failed; it is put back when it
-- waits for input or has failed; an export that is ready is delivered; and a request that can be
-- closed is rejected or withdrawn.
pub data IsMove : RequestKind → RequestStatus → RequestStatus → Type 0 where
  new_asks : {k : RequestKind} → IsMove k pending awaiting_input
  failed_asks : {k : RequestKind} → IsMove k failed awaiting_input
  waiting_returns : {k : RequestKind} → IsMove k awaiting_input pending
  failed_returns : {k : RequestKind} → IsMove k failed pending
  delivers : IsMove export ready delivered
  rejects_it : {k : RequestKind} {s : RequestStatus} → IsClosable k s → IsMove k s rejected
  withdraws : {k : RequestKind} {s : RequestStatus} → IsClosable k s → IsMove k s withdrawn

closable :
    (k : RequestKind) (s : RequestStatus)
    → (is_resting s || (is_export k && same_status s ready)) ≡ true
    → IsClosable k s
closable k pending h = new_request
closable k awaiting_input h = waiting_request
closable k failed h = failed_request
closable export ready h = ready_export
closable erasure ready h = cc
closable k processing h = absurd (ground arith)
closable k executed h = absurd (ground arith)
closable k rejected h = absurd (ground arith)
closable k withdrawn h = absurd (ground arith)
closable k delivered h = absurd (ground arith)

either_status :
    (s a b : RequestStatus) → (same_status s a || same_status s b) ≡ true → (s ≡ a) ⊎ (s ≡ b)
either_status s a b h = elim (Bool-cases (same_status s a)) [
  | inl one ↦ inl (same_status-eq s a one)
  | inr other ↦ inr (same_status-eq s b (ground arith))
]

pub allowed-IsMove : (k : RequestKind) (s t : RequestStatus) → allowed k s t ≡ true → IsMove k s t
unfolding allowed
allowed-IsMove k s awaiting_input h = elim (either_status s pending failed h) [
  | inl new ↦ subst (λ x. IsMove k x awaiting_input) (sym new) new_asks
  | inr bad ↦ subst (λ x. IsMove k x awaiting_input) (sym bad) failed_asks
]
allowed-IsMove k s pending h = elim (either_status s awaiting_input failed h) [
  | inl waits ↦ subst (λ x. IsMove k x pending) (sym waits) waiting_returns
  | inr bad ↦ subst (λ x. IsMove k x pending) (sym bad) failed_returns
]
allowed-IsMove export s delivered h =
    subst (λ x. IsMove export x delivered) (sym (same_status-eq s ready (ground arith))) delivers
allowed-IsMove erasure s delivered h = absurd (ground arith)
allowed-IsMove k s rejected h = rejects_it (closable k s h)
allowed-IsMove k s withdrawn h = withdraws (closable k s h)
allowed-IsMove k s processing h = cc
allowed-IsMove k s ready h = cc
allowed-IsMove k s failed h = cc
allowed-IsMove k s executed h = cc

-- What a decision may do to the requests: one moves its status as its kind may, or none does.
pub data Moves : List Request → List Request → Type 0 where
  still : Moves [] []
  kept : {xs ys : List Request} (r : Request) → Moves xs ys → Moves (r ∷ xs) (r ∷ ys)
  moved :
      {xs : List Request} (r r' : Request)
      → r'.id ≡ r.id
      → r'.kind ≡ r.kind
      → IsMove r.kind r.status r'.status
      → Moves (r ∷ xs) (r' ∷ xs)

pub Moves-refl : (rs : List Request) → Moves rs rs
Moves-refl [] = still
Moves-refl (r ∷ rs) = kept r (Moves-refl rs)

-- The move that an operation stages is allowed.
pub record IsLawful (o : Operation) : Type 0 where
  pub lawful : allowed o.payload.kind o.payload.expected_status o.payload.status ≡ true

target-kind : (o : Operation) (r : Request) → is_target o r ≡ true → r.kind ≡ o.payload.kind
unfolding is_target
target-kind o r h = same_kind-eq r.kind o.payload.kind (ground arith)

update_first-Moves :
    (o : Operation) (at : ℕ) (rs : List Request) {r : Request}
    → IsLawful o
    → find (is_target o) rs ≡ some r
    → same_status r.status o.payload.expected_status ≡ true
    → Moves rs (update_first (is_target o) (moved_request o.payload at) rs)
unfolding update_first moved_request
update_first-Moves o at [] {r} law e as_expected = cc
update_first-Moves o at (x ∷ rs) {r} law e as_expected = elim (Bool-cases (is_target o x)) [
  | inl here ↦
      let same : r ≡ x = ground arith in
      let status : x.status ≡ o.payload.expected_status =
        subst (λ y. y.status ≡ o.payload.expected_status) same
          (same_status-eq r.status o.payload.expected_status as_expected) in
      rw here (
        moved x _ refl refl (
          allowed-IsMove x.kind x.status o.payload.status
            (rw (target-kind o x here, status) law.lawful)))
  | inr later ↦
      rw later (kept x (update_first-Moves o at rs {r = r} law (ground arith) as_expected))
]

check_event-ok :
    (o : Operation) (e : HistoryEvent) (t : Tables)
    → check_event o e t ≡ ok tt
    → (r : Request) × (find (is_target o) t.requests ≡ some r)
      × (same_status r.status o.payload.expected_status ≡ true)
unfolding check_event
check_event-ok o e t h = elim (Option-cases (find (λ g. g.id == o.org) t.orgs)) [
  | inl no_org ↦ absurd (ground arith)
  | inr (org, scoped) ↦ elim (Option-cases (find (is_target o) t.requests)) [
    | inl no_request ↦ absurd (ground arith)
    | inr (r, target) ↦ (r, target, ground arith)
  ]
]

-- An application either was done before and changes nothing, or writes the move of its operation.
pub apply-ok :
    (id : ℕ) (e : HistoryEvent) (t : Tables) {t' : Tables} {kind : RequestKind} {i : ℕ}
    → apply id e t ≡ ok (t', kind, i)
    → (t ≡ t')
      ⊎ ((o : Operation) × (find (λ x. x.id == id) t.operations ≡ some o)
          × (check_event o e t ≡ ok tt)
          × (apply_writes o e t ≡ t'))
unfolding apply
apply-ok id e t {t'} {kind} {i} h = elim (Option-cases (find (λ x. x.id == id) t.operations)) [
  | inl unknown ↦ absurd (ground arith)
  | inr (o, known) ↦ elim (Bool-cases (is_applied_op o.status)) [
    | inl done ↦ inl (ground arith)
    | inr waiting ↦ elim (Result-cases (check_event o e t)) [
      | inr (bad, wrong) ↦ absurd (ground arith)
      | inl (u, passed) ↦ inr (o, known, passed, ground arith)
    ]
  ]
]

find-All {κ} :
    (P : Operation → Type κ) (p : Operation → Bool) (os : List Operation) {o : Operation}
    → All P os
    → find p os ≡ some o
    → P o
find-All P p [] {o} h e = cc
find-All P p (x ∷ os) {o} h e = elim (Bool-cases (p x)) [
  | inl here ↦ (let same : x ≡ o = ground arith in subst P same h.0)
  | inr later ↦ find-All P p os {o = o} h.1 (ground arith)
]

apply_writes-requests :
    (o : Operation) (e : HistoryEvent) (t : Tables)
    → (apply_writes o e t).requests
      ≡ update_first (is_target o) (moved_request o.payload e.accepted_at) t.requests
unfolding apply_writes
apply_writes-requests o e t = refl

-- An application moves the requests as is allowed.
pub apply-Moves :
    (id : ℕ) (e : HistoryEvent) (t : Tables) {t' : Tables} {kind : RequestKind} {i : ℕ}
    → All IsLawful t.operations
    → apply id e t ≡ ok (t', kind, i)
    → Moves t.requests t'.requests
apply-Moves id e t {t'} {kind} {i} law h =
    elim (apply-ok id e t {t' = t'} {kind = kind} {i = i} h) [
      | inl same ↦ subst (λ x. Moves t.requests x.requests) same (Moves-refl t.requests)
      | inr (o, known, passed, written) ↦
          let (r, target, expected) = check_event-ok o e t passed in
          rw (sym written, apply_writes-requests o e t)
            (update_first-Moves o e.accepted_at t.requests {r = r}
              (find-All IsLawful (λ x. x.id == id) t.operations {o = o} law known) target expected)
    ]

-- An update that keeps the payload keeps the law.
pub update_first-IsLawful :
    (p : Operation → Bool) (f : Operation → Operation) (os : List Operation)
    → ((o : Operation) → (f o).payload ≡ o.payload)
    → All IsLawful os
    → All IsLawful (update_first p f os)
unfolding update_first
update_first-IsLawful p f [] same h = tt
update_first-IsLawful p f (o ∷ os) same h = elim (Bool-cases (p o)) [
  | inl here ↦ rw here (record { lawful = rw (same o) h.0.lawful }, h.1)
  | inr later ↦ rw later (h.0, update_first-IsLawful p f os same h.1)
]
