-- ===== src/Calls/Interruption/Dead.antt =====
-- src/bluelab/calls/interruption.py: an interruption ends its attempt and brings none back.
use bluelab_backend_prod.Prelude.{
  ℕ, ◌≡◌, refl, Bool, false, not, List, [], ◌∷◌, any, keep, if◌then◌else◌, arith,
}
use bluelab_backend_prod.Calls.Database.{Db, Attempt}
use bluelab_backend_prod.Calls.Interruption.{
  Interruption, is_live, void_attempts, end_attempt, interrupt,
}
use bluelab_backend_prod.Calls.Interruption.Terminal.{end_attempt-not_live, attempts-settle}

void_attempts-dead :
    (now attempt b : ℕ) (rows : List Attempt)
    → any (is_live b) rows ≡ false
    → any (is_live b) (void_attempts now attempt rows) ≡ false
unfolding void_attempts is_live
void_attempts-dead now attempt b [] h = refl
void_attempts-dead now attempt b (a ∷ rows) h =
    ground (arith, void_attempts-dead now attempt b rows)

keep-dead :
    (p : Attempt → Bool) (b : ℕ) (rows : List Attempt)
    → any (is_live b) rows ≡ false
    → any (is_live b) (keep p rows) ≡ false
keep-dead p b [] h = refl
keep-dead p b (a ∷ rows) h = ground (arith, keep-dead p b rows)

pub interrupt-attempts :
    (now email : ℕ) (i : Interruption) (db : Db)
    → (interrupt now email i db).0.attempts ≡ (
        if any (is_live i.attempt_id) db.attempts
        then end_attempt now i db.attempts
        else db.attempts)
unfolding interrupt
interrupt-attempts now email i db =
    ground
      (arith, attempts-settle now email i (record db { attempts = end_attempt now i db.attempts }))

pub interrupt-ended :
    (now email : ℕ) (i : Interruption) (db : Db)
    → any (is_live i.attempt_id) (interrupt now email i db).0.attempts ≡ false
interrupt-ended now email i db =
    ground (arith, interrupt-attempts now email i db, end_attempt-not_live now i db.attempts)

pub interrupt-dead :
    (now email b : ℕ) (i : Interruption) (db : Db)
    → any (is_live b) db.attempts ≡ false
    → any (is_live b) (interrupt now email i db).0.attempts ≡ false
unfolding end_attempt
interrupt-dead now email b i db h = ground (
  arith,
  interrupt-attempts now email i db,
  void_attempts-dead now i.attempt_id b db.attempts h,
  keep-dead (λ a. not (is_live i.attempt_id a)) b db.attempts h,
)
