-- ===== src/Offboarding/Late.antt =====
-- src/bluelab/lifecycle/service.py: a cancellation that is applied after the term has ended.
use bluelab_backend_prod.Prelude.{
  ℕ, ◌+◌, ◌≤◌, ◌≡◌, sym, subst, Bool, true, none, some, ◌&&◌, ◌==◌, any, find, List, [], ◌∷◌, err,
  arith, Bool-cases, inl, inr,
}
use bluelab_backend_prod.Offboarding.{
  Library, LifecycleEvent, LifecycleOperation, LifecycleOrder, LifecycleTables, Org, Term,
  find_operation, find_org, has_pending, history_unverified, purge_blocked, term_of,
}
use bluelab_backend_prod.Offboarding.Commands.{accepted_org, current_org}
use bluelab_backend_prod.Offboarding.Claim.{prepare_claim}
use bluelab_backend_prod.Offboarding.Episode.{apply_cancel_offboarding, is_cancel, is_cancellable}
use bluelab_backend_prod.Offboarding.Renewal.{TermCommand, new_term}
use bluelab_backend_prod.Subjects.{is_pending_op}

any-find :
    (p q : LifecycleOperation → Bool) (xs : List LifecycleOperation) {x : LifecycleOperation}
    → find p xs ≡ some x
    → q x ≡ true
    → any q xs ≡ true
any-find p q [] h k = absurd (cc)
any-find p q (y ∷ xs) {x = x} h k = elim (Bool-cases (p y)) [
  | inl here ↦ let one : y ≡ x = ground arith in rw (subst (λ z. q z ≡ true) (sym one) k)
  | inr later ↦ ground (arith, any-find p q xs {x = x} (ground arith) k)
]

-- The history is one decision ahead of an organisation: an operation of it waits, and its event
-- has the head.
module _ (t : LifecycleTables) (id : ℕ) (o : LifecycleOperation) (g : Org) (s : Term)
    (known : find_operation id t ≡ some o) (waits : is_pending_op o.status ≡ true)
    (theirs : find_org o.org t ≡ some g) (current : term_of t g ≡ some s) where
  late_cancel_refused :
      (now : ℕ) (e : LifecycleEvent)
      → is_cancel o.action ≡ true
      → s.ends_at ≤ now
      → apply_cancel_offboarding now id e t ≡ err history_unverified
  unfolding apply_cancel_offboarding accepted_org is_cancellable
  late_cancel_refused now e cancels late = ground arith

  is_waiting : has_pending o.org t ≡ true
  unfolding has_pending
  is_waiting =
      any-find (λ x. x.id == id) (λ x. x.org == o.org && is_pending_op x.status) t.operations known
        (ground arith)

  -- A decision that the history has accepted can be lost: when the database applies an accepted
  -- cancellation only after the service term has ended, it refuses its event, now and at every later
  -- time. The cancellation stays pending, the history stays ahead of the organisation, and so each
  -- new renewal is refused as unverified and each new claim of the purge as blocked.
  pub late_cancel_wedges :
      (now : ℕ) (e : LifecycleEvent) (lib : Library) (later : ℕ) (c : LifecycleOrder)
      (m : TermCommand) (episode sequence : ℕ)
      → is_cancel o.action ≡ true
      → s.ends_at ≤ now
      → c.org_id ≡ o.org
      → c.head_sequence ≡ g.lifecycle_sequence + 1
      → find_operation (lib.claim_id o.org episode) t ≡ none
      → (apply_cancel_offboarding now id e t ≡ err history_unverified)
        × (new_term lib later c m t ≡ err history_unverified)
        × (prepare_claim lib later o.org episode sequence t ≡ err purge_blocked)
  unfolding new_term current_org prepare_claim
  late_cancel_wedges now e lib later c m episode sequence cancels late own ahead unclaimed =
      let fence = is_waiting in (late_cancel_refused now e cancels late, ground arith, ground arith)
