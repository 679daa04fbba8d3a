-- ===== src/Calls/Registry/Capacity.antt =====
-- src/bluelab/calls/registry.py, `CapacitySlots`. A slot's value is the call that holds it.
use bluelab_backend_prod.Prelude.{
  String, ℕ, zero, suc, ◌+◌, ◌*◌, ◌≤◌, ◌<◌, ◌≡◌, Bool, true, false, Option, none, some, ◌==◌,
  if◌then◌else◌, is_some, arith, Option-cases, Bool-cases, inl, inr, ◌≢◌, ==_refl,
}
use bluelab_backend_prod.Prelude.Equality.{nat_eq}
use bluelab_backend_prod.Valkey.{Keyspace}

module _ (ks : Keyspace ℕ ℕ) (ttl_seconds : ℕ) where
  open ks use {Store, get, set, delete}

  -- the loop of `acquire` over `left` slots, from `slot` on: SET NX EX
  unfoldable pub acquire_from : Store → ℕ → ℕ → ℕ → ℕ → Store × Option ℕ
  acquire_from s now call slot zero = (s, none)
  acquire_from s now call slot (suc left) = elim (get s now slot) [
    | none ↦ (set s now slot call ttl_seconds, some slot)
    | some taken ↦ acquire_from s now call (suc slot) left
  ]

  unfoldable pub acquire_slot : Store → ℕ → ℕ → ℕ → Store × Option ℕ
  unfolding acquire_from
  acquire_slot s now capacity call = acquire_from s now call 0 capacity

  -- GET at `now`, DEL at `later`; `meanwhile` is what other clients do between.
  pub release_slot : Store → ℕ → (Store → Store) → ℕ → ℕ → Option ℕ → Store × Bool
  release_slot s now meanwhile later call none = (s, false)
  release_slot s now meanwhile later call (some slot) = elim (get s now slot) [
    | none ↦ (s, false)
    | some holder ↦
        if holder == call
        then (delete (meanwhile s) later slot, is_some (get (meanwhile s) later slot))
        else (s, false)
  ]

  acquire_from-free :
      (s : Store) (now call slot left : ℕ) {k : ℕ}
      → (acquire_from s now call slot left).1 ≡ some k
      → (get s now k ≡ none)
        × (slot ≤ k)
        × (k < slot + left)
        × ((acquire_from s now call slot left).0 ≡ set s now k call ttl_seconds)
  unfolding acquire_from
  acquire_from-free s now call slot zero h = cc
  acquire_from-free s now call slot (suc left) {k} h = elim (Option-cases (get s now slot)) [
    | inl free ↦ ground arith
    | inr (holder, taken) ↦ ground (arith, acquire_from-free s now call (suc slot) left {k = k})
  ]

  acquire_from-full :
      (s : Store) (now call slot left k : ℕ)
      → (acquire_from s now call slot left).1 ≡ none
      → slot ≤ k
      → k < slot + left
      → is_some (get s now k) ≡ true
  unfolding acquire_from
  acquire_from-full s now call slot zero k h a b = absurd (omega arith)
  acquire_from-full s now call slot (suc left) k h a b = elim (Option-cases (get s now slot)) [
    | inl free ↦ absurd (ground arith)
    | inr (holder, taken) ↦ elim (Bool-cases (k == slot)) [
      | inl here ↦ ground arith
      | inr later ↦ ground (arith, acquire_from-full s now call (suc slot) left k)
    ]
  ]

  -- The slot that a call is given is below the capacity and was free.
  pub acquire_slot-free :
      (s : Store) (now capacity call : ℕ) {k : ℕ}
      → (acquire_slot s now capacity call).1 ≡ some k
      → (get s now k ≡ none) × (k < capacity)
  unfolding acquire_slot
  acquire_slot-free s now capacity call {k} h =
      ground (arith, acquire_from-free s now call 0 capacity {k = k})

  -- A call is refused only if every slot of the capacity is held.
  pub acquire_slot-full :
      (s : Store) (now capacity call k : ℕ)
      → (acquire_slot s now capacity call).1 ≡ none
      → k < capacity
      → is_some (get s now k) ≡ true
  unfolding acquire_slot
  acquire_slot-full s now capacity call k h below =
      acquire_from-full s now call 0 capacity k h (omega arith) (omega arith)

  -- Two calls that acquire one after the other, the second before the first slot expires, never
  -- hold the same slot.
  pub acquire_slot-distinct :
      (s : Store) (now later capacity first second : ℕ) {i j : ℕ}
      → (acquire_slot s now capacity first).1 ≡ some i
      → now ≤ later
      → later < now + 1000 * ttl_seconds
      → (acquire_slot (acquire_slot s now capacity first).0 later capacity second).1 ≡ some j
      → i ≢ j
  unfolding acquire_slot
  acquire_slot-distinct s now later capacity first second {i} {j} h after before k same =
      let one = acquire_from-free s now first 0 capacity {k = i} h in
      let s' : Store = (acquire_from s now first 0 capacity).0 in
      let two = acquire_from-free s' later second 0 capacity {k = j} k in
      ground (arith, one.3, two.0, ks.get-set s now later i j first ttl_seconds after, ==_refl i)

-- `spend_blocked`: the stored text, if any; `at_limit` is what float(value) >= 1.0 answers, or none
-- for a ValueError.
unfoldable pub spend_blocked : (String → Option Bool) → Option String → Bool
spend_blocked at_limit none = false
spend_blocked at_limit (some value) = elim (at_limit value) [ none ↦ true | some b ↦ b ]
