-- ===== src/Valkey/Memory.antt =====
-- Concrete stores that meet the interface: a table of expiring values, and an association list.
use bluelab_backend_prod.Prelude.{
  ℕ, ◌+◌, ◌*◌, ◌≤◌, ◌≡◌, refl, Bool, true, false, Option, none, some, List, [], ◌∷◌, ltb, leb, elem,
  ◌==◌, if◌then◌else◌, arith,
}
use bluelab_backend_prod.Prelude.Equality.{Eq}
use bluelab_backend_prod.Prelude.{◌-◌, ◌/◌}
use bluelab_backend_prod.Prelude.Int.{ℤ, pos, negsuc}
use bluelab_backend_prod.Valkey.{Keyspace, SortedSet, Counters, is_scored, lasting, bumped, limited}

abbrev pub live {ℓ} : {V : Type ℓ} → ℕ → Option (V × ℕ) → Option V
live t none = none
live t (some (v, deadline)) = if ltb t deadline then some v else none

pub live_if {ℓ} :
    {V : Type ℓ} (b : Bool) (t : ℕ) (x y : Option (V × ℕ))
    → live t (if b then x else y) ≡ (if b then live t x else live t y)
live_if true t x y = refl
live_if false t x y = refl

pub live_earlier {ℓ} :
    {V : Type ℓ} (x : Option (V × ℕ)) (t t' : ℕ) (v : V)
    → t ≤ t'
    → live t' x ≡ some v
    → live t x ≡ some v
live_earlier none t t' v h p = p
live_earlier (some (u, d)) t t' v h p = ground arith

module _ (K V : Type 0) ⦃e : Eq K⦄ where
  abbrev pub memory : Keyspace K V
  memory = record {
    Store = K → Option (V × ℕ);
    get = λ s t k. live t (s k);
    set = λ s t k v ttl j. if e.beq k j then some (v, t + 1000 * ttl) else s j;
    delete = λ s t k j. if e.beq k j then none else s j;
    get-set = λ s t t' k j v ttl h. live_if (e.beq k j) t' (some (v, t + 1000 * ttl)) (s j);
    get-delete = λ s t t' k j h. live_if (e.beq k j) t' none (s j);
    get_earlier = λ s t t' k v h p. live_earlier (s k) t t' v h p;
  }

  abbrev pub nothing : memory.Store
  nothing k = none

abbrev pub score_of : List (ℕ × ℕ) → ℕ → Option ℕ
score_of [] j = none
score_of ((i, at) ∷ rest) j = if i == j then some at else score_of rest j

abbrev pub drop_id : List (ℕ × ℕ) → ℕ → List (ℕ × ℕ)
drop_id [] i = []
drop_id ((j, at) ∷ rest) i = let r = drop_id rest i in if j == i then r else (j, at) ∷ r

abbrev pub without : ℕ → List ℕ → List ℕ
without i [] = []
without i (j ∷ js) = let r = without i js in if j == i then r else j ∷ r

-- The ids whose score, which is that of the first entry, passes a test.
abbrev pub ids_if : (ℕ → Bool) → List (ℕ × ℕ) → List ℕ
ids_if p [] = []
ids_if p ((j, at) ∷ rest) = let r = without j (ids_if p rest) in if p at then j ∷ r else r

pub score-drop :
    (z : List (ℕ × ℕ)) (i j : ℕ)
    → score_of (drop_id z i) j ≡ (if i == j then none else score_of z j)
score-drop [] i j = ground arith
score-drop ((k, at) ∷ z) i j = ground (arith, score-drop z i j)

pub score-put :
    (z : List (ℕ × ℕ)) (i at j : ℕ)
    → score_of ((i, at) ∷ drop_id z i) j ≡ (if i == j then some at else score_of z j)
score-put z i at j = ground (arith, score-drop z i j)

elem-without :
    (i j : ℕ) (xs : List ℕ) → elem j (without i xs) ≡ (if i == j then false else elem j xs)
elem-without i j [] = ground arith
elem-without i j (x ∷ xs) = ground (arith, elem-without i j xs)

pub elem-ids_if :
    (p : ℕ → Bool) (z : List (ℕ × ℕ)) (i : ℕ) → elem i (ids_if p z) ≡ is_scored p (score_of z i)
elem-ids_if p [] i = refl
elem-ids_if p ((j, at) ∷ z) i = ground (arith, elem-ids_if p z i, elem-without j i (ids_if p z))

abbrev pub sorted_memory : SortedSet
sorted_memory = record {
  Members = List (ℕ × ℕ);
  score = score_of;
  zadd = λ z i at. (i, at) ∷ drop_id z i;
  zrem = drop_id;
  up_to = λ z max. ids_if (λ at. leb at max) z;
  every = ids_if (λ at. true);
  score-zadd = score-put;
  score-zrem = score-drop;
  elem-up_to = λ z i max. elem-ids_if (λ at. leb at max) z i;
  elem-every = λ z i. elem-ids_if (λ at. true) z i;
}

pub lasting_if :
    (b : Bool) (t : ℕ) (x y : Option (ℕ × Option ℕ))
    → lasting t (if b then x else y) ≡ (if b then lasting t x else lasting t y)
lasting_if true t x y = refl
lasting_if false t x y = refl

pub lasting_later :
    (x : Option (ℕ × Option ℕ)) (t t' : ℕ) → t ≤ t' → lasting t' x ≡ lasting t' (lasting t x)
lasting_later none t t' h = refl
lasting_later (some (n, none)) t t' h = refl
lasting_later (some (n, some d)) t t' h = ground arith

-- TTL in seconds, rounded up; -1 with no expiry and -2 with no key
abbrev pub seconds_left : ℕ → Option (ℕ × Option ℕ) → ℤ
seconds_left t none = negsuc 1
seconds_left t (some (n, none)) = negsuc 0
seconds_left t (some (n, some d)) = pos ((d - t + 999) / 1000)

module _ (K : Type 0) ⦃e : Eq K⦄ where
  abbrev pub counter_memory : Counters K
  counter_memory = record {
    Store = K → Option (ℕ × Option ℕ);
    read = λ s t k. lasting t (s k);
    incr = λ s t k j. if e.beq k j then bumped (lasting t (s k)) else s j;
    expire_nx =
        λ s t k window j. if e.beq k j then limited (t + 1000 * window) (lasting t (s k)) else s j;
    delete = λ s t k j. if e.beq k j then none else s j;
    ttl = λ s t k. seconds_left t (lasting t (s k));
    read-incr = λ s t t' k j h. lasting_if (e.beq k j) t' (bumped (lasting t (s k))) (s j);
    read-expire_nx = λ s t t' k j window h.
        lasting_if (e.beq k j) t' (limited (t + 1000 * window) (lasting t (s k))) (s j);
    read-delete = λ s t t' k j h. lasting_if (e.beq k j) t' none (s j);
    read_later = λ s t t' k h. lasting_later (s k) t t' h;
  }

  abbrev pub no_counters : counter_memory.Store
  no_counters k = none
