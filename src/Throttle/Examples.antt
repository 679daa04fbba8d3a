-- ===== src/Throttle/Examples.antt =====
-- Runs of src/bluelab/platform/security/throttle.py that meet the hypotheses of its theorems.
use bluelab_backend_prod.Prelude.{some, ℕ, suc, ◌≡◌, refl, min, [], ◌∷◌, length, arith}
use bluelab_backend_prod.Prelude.Equality.{nat_eq}
use bluelab_backend_prod.Valkey.{Counters, Keyspace}
use bluelab_backend_prod.Valkey.Memory.{memory, counter_memory, no_counters}
use bluelab_backend_prod.Throttle.{Limit}
use bluelab_backend_prod.Throttle.Window.{after_hits, allowed, window_allows}

abbrev counters : Counters ℕ
counters = counter_memory ℕ

abbrev holds : Keyspace ℕ ℕ
holds = memory ℕ ℕ

-- two attempts in a minute
abbrev limit : Limit
limit = record { attempts = 2; window_seconds = 60 }

window_allows_example :
    (allowed ℕ counters 7 (no_counters ℕ) limit (0 ∷ 10 ∷ 20 ∷ [])
      ≡ min 2 (suc (length {A = ℕ} (10 ∷ 20 ∷ []))))
    × (counters.read (after_hits ℕ counters 7 (no_counters ℕ) limit (0 ∷ 10 ∷ 20 ∷ [])) 20 7
        ≡ some (3, some 60000))
window_allows_example =
    window_allows ℕ counters 7 (no_counters ℕ) limit 0 (10 ∷ 20 ∷ []) refl (omega arith)
      (omega arith, omega arith, (omega arith, omega arith, tt))
