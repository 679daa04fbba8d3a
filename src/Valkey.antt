-- ===== src/Valkey.antt =====
-- The coordination store, which is not part of this repository: what the code relies on of a
-- key with an expiry (SET EX, GET, DEL) and of a sorted set (ZADD, ZREM, ZRANGEBYSCORE).
-- Times are milliseconds of the server's clock, and each command is given the time at which it
-- is served.
pub mod Memory
use bluelab_backend_prod.Prelude.{
  ℕ, ◌+◌, ◌*◌, ◌≤◌, ◌≡◌, Bool, true, false, ◌&&◌, not, Option, none, some, List, ltb, leb, elem,
  distinct, ◌==◌, if◌then◌else◌,
}
use bluelab_backend_prod.Prelude.Equality.{Eq}
use bluelab_backend_prod.Prelude.Int.{ℤ}

pub record Keyspace (K V : Type 0) ⦃e : Eq K⦄ : Type 1 where
  pub Store : Type 0
  pub get : Store → ℕ → K → Option V
  -- SET key value EX ttl
  pub set : Store → ℕ → K → V → ℕ → Store
  pub delete : Store → ℕ → K → Store
  pub get-set :
      (s : Store) (t t' : ℕ) (k j : K) (v : V) (ttl : ℕ)
      → t ≤ t'
      → get (set s t k v ttl) t' j
        ≡ (if e.beq k j then (if ltb t' (t + 1000 * ttl) then some v else none) else get s t' j)
  pub get-delete :
      (s : Store) (t t' : ℕ) (k j : K)
      → t ≤ t'
      → get (delete s t k) t' j ≡ (if e.beq k j then none else get s t' j)
  -- Time alone only lets a key expire.
  pub get_earlier :
      (s : Store) (t t' : ℕ) (k : K) (v : V) → t ≤ t' → get s t' k ≡ some v → get s t k ≡ some v

abbrev pub is_scored : (ℕ → Bool) → Option ℕ → Bool
is_scored p none = false
is_scored p (some at) = p at

-- A sorted set of ids.
pub record SortedSet : Type 1 where
  pub Members : Type 0
  pub score : Members → ℕ → Option ℕ
  pub zadd : Members → ℕ → ℕ → Members
  pub zrem : Members → ℕ → Members
  -- ZRANGEBYSCORE -inf max
  pub up_to : Members → ℕ → List ℕ
  -- ZRANGE 0 -1
  pub every : Members → List ℕ
  pub score-zadd :
      (z : Members) (i at j : ℕ) → score (zadd z i at) j ≡ (if i == j then some at else score z j)
  pub score-zrem :
      (z : Members) (i j : ℕ) → score (zrem z i) j ≡ (if i == j then none else score z j)
  pub elem-up_to :
      (z : Members) (i max : ℕ) → elem i (up_to z max) ≡ is_scored (λ at. leb at max) (score z i)
  pub elem-every : (z : Members) (i : ℕ) → elem i (every z) ≡ is_scored (λ at. true) (score z i)

-- A counter's value and its deadline, if it has one, while it lasts.
abbrev pub lasting : ℕ → Option (ℕ × Option ℕ) → Option (ℕ × Option ℕ)
lasting t none = none
lasting t (some (n, none)) = some (n, none)
lasting t (some (n, some d)) = if ltb t d then some (n, some d) else none

abbrev pub bumped : Option (ℕ × Option ℕ) → Option (ℕ × Option ℕ)
bumped none = some (1, none)
bumped (some (n, d)) = some (n + 1, d)

abbrev pub limited : ℕ → Option (ℕ × Option ℕ) → Option (ℕ × Option ℕ)
limited d none = none
limited d (some (n, none)) = some (n, some d)
limited d (some (n, some e)) = some (n, some e)

-- Counters with an expiry: INCR, EXPIRE NX, TTL and DEL.
pub record Counters (K : Type 0) ⦃e : Eq K⦄ : Type 1 where
  pub Store : Type 0
  pub read : Store → ℕ → K → Option (ℕ × Option ℕ)
  pub incr : Store → ℕ → K → Store
  pub expire_nx : Store → ℕ → K → ℕ → Store
  pub delete : Store → ℕ → K → Store
  pub ttl : Store → ℕ → K → ℤ
  pub read-incr :
      (s : Store) (t t' : ℕ) (k j : K)
      → t ≤ t'
      → read (incr s t k) t' j
        ≡ (if e.beq k j then lasting t' (bumped (read s t k)) else read s t' j)
  pub read-expire_nx :
      (s : Store) (t t' : ℕ) (k j : K) (window : ℕ)
      → t ≤ t'
      → read (expire_nx s t k window) t' j
        ≡ (if e.beq k j then lasting t' (limited (t + 1000 * window) (read s t k)) else read s t' j)
  pub read-delete :
      (s : Store) (t t' : ℕ) (k j : K)
      → t ≤ t'
      → read (delete s t k) t' j ≡ (if e.beq k j then none else read s t' j)
  pub read_later : (s : Store) (t t' : ℕ) (k : K) → t ≤ t' → read s t' k ≡ lasting t' (read s t k)
