-- ===== src/Training/Recipients.antt =====
-- src/bluelab/modules/training/assignment.py: the recipients of a request are a set.
use bluelab_backend_prod.Prelude.{
  ℕ, ◌+◌, ◌≡◌, refl, Bool, true, false, ◌&&◌, not, List, [], ◌∷◌, ◌++◌, ◌==◌, elem, distinct, keep,
  count_if, if◌then◌else◌, arith, Bool-cases, inl, inr, ==_refl,
}
use bluelab_backend_prod.Calls.Database.{Assignment, Recipient}
use bluelab_backend_prod.Training.{
  without, unique_recipient_ids, new_recipients, replace_recipients,
}

elem-without :
    (x y : ℕ) (ys : List ℕ) → elem y (without x ys) ≡ (if x == y then false else elem y ys)
unfolding without
elem-without x y [] = ground arith
elem-without x y (z ∷ ys) = ground (arith, elem-without x y ys)

without-distinct : (x : ℕ) (ys : List ℕ) → distinct ys ≡ true → distinct (without x ys) ≡ true
unfolding without
without-distinct x [] h = refl
without-distinct x (y ∷ ys) h = ground (arith, without-distinct x ys, elem-without x y ys)

elem_unique : (y : ℕ) (xs : List ℕ) → elem y (unique_recipient_ids xs) ≡ elem y xs
unfolding unique_recipient_ids
elem_unique y [] = refl
elem_unique y (x ∷ xs) =
    ground (arith, elem-without x y (unique_recipient_ids xs), elem_unique y xs)

unique_recipient_ids-distinct : (xs : List ℕ) → distinct (unique_recipient_ids xs) ≡ true
unfolding unique_recipient_ids
unique_recipient_ids-distinct [] = refl
unique_recipient_ids-distinct (x ∷ xs) = ground (
  arith,
  elem-without x x (unique_recipient_ids xs),
  without-distinct x (unique_recipient_ids xs) (unique_recipient_ids-distinct xs),
)

-- A grant of an assignment to a rep, and one that is unused.
abbrev pub is_grant : ℕ → ℕ → Recipient → Bool
is_grant assignment who r = r.assignment == assignment && r.rep == who

abbrev pub is_fresh : ℕ → ℕ → Recipient → Bool
is_fresh assignment who r = is_grant assignment who r && r.attempts_used == 0

count-append :
    (p : Recipient → Bool) (rs ss : List Recipient)
    → count_if p (rs ++ ss) ≡ count_if p rs + count_if p ss
count-append p [] ss = omega arith
count-append p (r ∷ rs) ss = ground (arith, count-append p rs ss)

count-removed :
    (assignment who : ℕ) (rs : List Recipient)
    → (count_if (is_grant assignment who) (keep (λ r. not (r.assignment == assignment)) rs) ≡ 0)
      × (count_if (is_fresh assignment who) (keep (λ r. not (r.assignment == assignment)) rs) ≡ 0)
count-removed assignment who [] = (refl, refl)
count-removed assignment who (r ∷ rs) =
    let rest = count-removed assignment who rs in
    elim (Bool-cases (r.assignment == assignment)) [
      | inl gone ↦ (ground (arith, rest.0), ground (arith, rest.1))
      | inr stays ↦ (ground (arith, rest.0), ground (arith, rest.1))
    ]

count-new :
    (a : Assignment) (org team who : ℕ) (ids : List ℕ)
    → distinct ids ≡ true
    → (count_if (is_grant a.id who) (new_recipients a org team ids)
        ≡ (if elem who ids then 1 else 0))
      × (count_if (is_fresh a.id who) (new_recipients a org team ids)
          ≡ (if elem who ids then 1 else 0))
unfolding new_recipients
count-new a org team who [] h = (refl, refl)
count-new a org team who (x ∷ ids) h =
    let rest = count-new a org team who ids (ground arith) in
    elim (Bool-cases (x == who)) [
      | inl here ↦ (
        (let same : x ≡ who = ground arith in ground (arith, rest.0, ==_refl a.id)),
        (let same : x ≡ who = ground arith in ground (arith, rest.1, ==_refl a.id)),
      )
      | inr later ↦ (ground (arith, rest.0), ground (arith, rest.1))
    ]

-- After the replacement each requested rep has one grant, which is unused, and no other rep has one.
pub count-replace :
    (a : Assignment) (org team who : ℕ) (asked : List ℕ) (rs : List Recipient)
    → let rows = replace_recipients a org team (unique_recipient_ids asked) rs in
      (count_if (is_grant a.id who) rows ≡ (if elem who asked then 1 else 0))
      × (count_if (is_fresh a.id who) rows ≡ (if elem who asked then 1 else 0))
unfolding replace_recipients
count-replace a org team who asked rs =
    let ids = unique_recipient_ids asked in
    let kept = keep (λ r. not (r.assignment == a.id)) rs in
    let removed = count-removed a.id who rs in
    let added = count-new a org team who ids (unique_recipient_ids-distinct asked) in
    (
      ground (
        arith,
        count-append (is_grant a.id who) kept (new_recipients a org team ids),
        removed.0,
        added.0,
        elem_unique who asked,
      ),
      ground (
        arith,
        count-append (is_fresh a.id who) kept (new_recipients a org team ids),
        removed.1,
        added.1,
        elem_unique who asked,
      ),
    )
