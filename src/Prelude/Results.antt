-- ===== src/Prelude/Results.antt =====
-- A function that may raise returns a `Result`; a raise ends a `do` block.
use mathlib.Core.Path.{◌≡◌, refl}
use mathlib.Core.Logic.{◌⊎◌, inl, inr}
use mathlib.Core.Bool.{Bool, true, false}
use mathlib.Core.Option.{Option, none, some}
use bluelab_backend_prod.Prelude.Tests.{if◌then◌else◌}

pub data Result {ℓ κ} (E : Type ℓ) (A : Type κ) : Type (ℓ ⊔ κ) where
  ok : A → Result E A
  err : E → Result E A

infixl 5 ◌>>=◌ ◌>>◌
abbrev pub ◌>>=◌ {ℓ κ μ} :
    {E : Type ℓ} {A : Type κ} {B : Type μ} → Result E A → (A → Result E B) → Result E B
ok a >>= f = f a
err e >>= f = err e

abbrev pub ◌>>◌ {ℓ κ} : {E : Type ℓ} {B : Type κ} → Result E (Unit {0}) → Result E B → Result E B
m >> k = m >>= λ _. k

-- if test: raise e
abbrev pub raise_if {ℓ} : {E : Type ℓ} → Bool → E → Result E (Unit {0})
raise_if true e = err e
raise_if false e = ok tt

abbrev pub or_raise {ℓ κ} : {E : Type ℓ} {A : Type κ} → Option A → E → Result E A
or_raise none e = err e
or_raise (some a) e = ok a

abbrev pub is_ok {ℓ κ} : {E : Type ℓ} {A : Type κ} → Result E A → Bool
is_ok (ok a) = true
is_ok (err e) = false

-- To split on a computed result and keep the equation.
pub Result-cases {ℓ κ} :
    {E : Type ℓ} {A : Type κ} (r : Result E A) → ((a : A) × (r ≡ ok a)) ⊎ ((e : E) × (r ≡ err e))
Result-cases (ok a) = inl (a, refl)
Result-cases (err e) = inr (e, refl)

-- To read a `do` block that succeeded line by line, from its first line on.
module _ {ℓ κ μ ν} {E : Type ℓ} {A : Type κ} {B : Type μ} {C : Type ν} where
  pub >>=-cases :
      (m : Result E A) (f : A → Result E B) {b : B}
      → (m >>= f) ≡ ok b
      → ((a : A) → m ≡ ok a → f a ≡ ok b → C)
      → C
  >>=-cases (ok a) f h k = k a refl h
  >>=-cases (err e) f h k = absurd (cc)

  pub or_raise-cases :
      (o : Option A) (e : E) (f : A → Result E B) {b : B}
      → (or_raise o e >>= f) ≡ ok b
      → ((a : A) → o ≡ some a → f a ≡ ok b → C)
      → C
  or_raise-cases none e f h k = absurd (cc)
  or_raise-cases (some a) e f h k = k a refl h

module _ {ℓ κ μ} {E : Type ℓ} {A : Type κ} {C : Type μ} where
  pub raise_if-cases :
      (test : Bool) (e : E) (m : Result E A) {a : A}
      → (raise_if test e >> m) ≡ ok a
      → (test ≡ false → m ≡ ok a → C)
      → C
  raise_if-cases true e m h k = absurd (cc)
  raise_if-cases false e m h k = k refl h

pub ok-injective {ℓ κ} :
    {E : Type ℓ} {A : Type κ} {a b : A} → ◌≡◌ {A = Result E A} (ok a) (ok b) → a ≡ b
ok-injective h = cc

pub if-cases {ℓ κ} :
    {A : Type ℓ} {C : Type κ} (test : Bool) {x y z : A}
    → (if test then x else y) ≡ z
    → (test ≡ true → x ≡ z → C)
    → (test ≡ false → y ≡ z → C)
    → C
if-cases true h yes' no' = yes' refl h
if-cases false h yes' no' = no' refl h
