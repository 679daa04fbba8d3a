-- ===== src/Offboarding/Upheld.antt =====
-- src/bluelab/lifecycle: a step of the lifecycle leaves the tables fenced, and moves each
-- organisation as allowed or not at all.
use bluelab_backend_prod.Prelude.{
  ℕ, ◌+◌, ◌≡◌, refl, sym, ap, subst, Bool, Option, none, some, List, [], ◌∷◌, ◌==◌, ==_iff, find,
  All, if◌then◌else◌, arith, Bool-cases, inl, inr,
}
use bluelab_backend_prod.Offboarding.{
  LifecycleEvent, LifecycleOperation, LifecycleTables, Org, is_purging, find_org,
}
use bluelab_backend_prod.Offboarding.Fence.{
  Change, Due, Evolves, Fenced, IsFenced, answered, applied_by, kept, moved_to, rewritten, settled,
  staged,
}
use bluelab_backend_prod.Prelude.Members.{All-last, All-mono}
use bluelab_backend_prod.Subjects.{update_first}

-- What holds of each row holds after an update of the first that passes a test.
All-update {ℓ κ} :
    {A : Type ℓ} (P : A → Type κ) (p : A → Bool) (f : A → A) (xs : List A)
    → All P xs
    → ((x : A) → find p xs ≡ some x → P x → P (f x))
    → All P (update_first p f xs)
unfolding update_first
All-update P p f [] h k = tt
All-update P p f (x ∷ xs) h k = elim (Bool-cases (p x)) [
  | inl here ↦ rw here (k x (rw here refl) h.0, h.1)
  | inr later ↦ rw later (h.0, All-update P p f xs h.1 (λ y found. k y (rw later found)))
]

-- An organisation that is updated is found updated, and any other as before.
find_updated :
    (k j : ℕ) (h : Org → Org) (gs : List Org)
    → ((x : Org) → (h x).id ≡ x.id)
    → find (λ x. x.id == j) (update_first (λ x. x.id == k) h gs) ≡ (
        if j == k
        then (elim (find (λ x. x.id == k) gs) [ none ↦ none | some g ↦ some (h g) ])
        else find (λ x. x.id == j) gs)
unfolding update_first
find_updated k j h [] same = ground arith
find_updated k j h (g ∷ gs) same = ground (arith, same g, find_updated k j h gs same)

-- What a step finds of an organisation afterwards: what it was, or its allowed change.
pub data Course (by : ℕ) (t : LifecycleTables) (g : Org) (found : Option Org) : Type 0 where
  unmoved : found ≡ some g → Course by t g found
  changed : (g' : Org) → found ≡ some g' → Change by t g g' → Course by t g found

pub Evolves-Course :
    (by : ℕ) (t t' : LifecycleTables) (id : ℕ) (g : Org)
    → Evolves by t t'
    → find_org id t ≡ some g
    → Course by t g (find_org id t')
Evolves-Course by t t' id g (kept same) found = unmoved (rw same found)
Evolves-Course by t t' id g (answered rows same) found = unmoved (rw same found)
Evolves-Course by t t' id g (staged o same fence) found = unmoved (rw same found)
Evolves-Course by t t' id g (rewritten i f same fence) found = unmoved (rw same found)
Evolves-Course by t t' id g (settled o e f x theirs next same change orgs ops entered) found =
    let after = find_updated o.org id (moved_to e f) t.orgs same in
    elim (Bool-cases (id == o.org)) [
      | inr other ↦ unmoved (rw (orgs, after, other) found)
      | inl own ↦
          let one : id ≡ o.org = (==_iff id o.org).0 own in
          let it : x ≡ g = ground arith in
          changed (moved_to e f g) (rw (orgs, after, own, theirs, it) refl)
            (subst (λ y. Change by t y (moved_to e f y)) it change)
    ]

-- Another application leaves an operation fenced.
Fenced-settled :
    (by : ℕ) (t : LifecycleTables) (k : ℕ) (e : LifecycleEvent) (f : Org → Org) (g : Org)
    (o : LifecycleOperation)
    → find_org k t ≡ some g
    → e.sequence ≡ g.lifecycle_sequence + 1
    → ((x : Org) → (f x).id ≡ x.id)
    → Fenced by t.orgs o
    → Fenced by (update_first (λ x. x.id == k) (moved_to e f) t.orgs) o
Fenced-settled by t k e f g o found next same fence x found' waits =
    let after = find_updated k o.org (moved_to e f) t.orgs same in
    elim (Bool-cases (o.org == k)) [
      | inr other ↦ fence x (ground arith) waits
      | inl own ↦
          let one : o.org ≡ k = (==_iff o.org k).0 own in
          let it : moved_to e f g ≡ x = ground arith in
          let old = fence g (rw one found) waits in
          let now' : x.lifecycle_sequence ≡ e.sequence = ap Org.lifecycle_sequence (sym it) in
          (omega arith, λ p. absurd (omega arith))
    ]

Change-Due : (by : ℕ) (t : LifecycleTables) (g g' : Org) → Change by t g g' → Due by g → Due by g'
Change-Due by t g g' change due purged = elim (Bool-cases (is_purging g.lifecycle_status)) [
  | inl before ↦ rw (change.stays before) (due before)
  | inr new ↦ (change.clears purged new).0
]

pub Evolves-IsFenced :
    (by : ℕ) (t t' : LifecycleTables) → Evolves by t t' → IsFenced by t → IsFenced by t'
Evolves-IsFenced by t t' (kept same) inv = subst (IsFenced by) (sym same) inv
Evolves-IsFenced by t t' (answered rows same) inv = record {
  fenced = rw same inv.fenced;
  due = rw same inv.due;
}
Evolves-IsFenced by t t' (staged o same fence) inv = record {
  fenced = rw same (All-last (Fenced by t.orgs) t.operations o inv.fenced fence);
  due = rw same inv.due;
}
Evolves-IsFenced by t t' (rewritten i f same fence) inv = record {
  fenced = rw same (All-update (Fenced by t.orgs) (λ x. x.id == i) f t.operations inv.fenced fence);
  due = rw same inv.due;
}
Evolves-IsFenced by t t' (settled o e f g found next same change orgs ops entered) inv =
    let orgs' = update_first (λ x. x.id == o.org) (moved_to e f) t.orgs in
    record {
      fenced =
          rw (orgs, ops)
            (All-update (Fenced by orgs') (λ x. x.id == o.id) (applied_by e) t.operations
              (All-mono (Fenced by t.orgs) (Fenced by orgs') t.operations
                (λ x. Fenced-settled by t o.org e f g x found next same) inv.fenced)
              (λ x known fence y found' waits. absurd (cc)));
      due = rw orgs (
          All-update (Due by) (λ x. x.id == o.org) (moved_to e f) t.orgs inv.due
            (λ x found' due.
              let it : g ≡ x = ground arith in
              Change-Due by t x (moved_to e f x)
                (subst (λ y. Change by t y (moved_to e f y)) it change) due));
    }
