-- ===== src/Prelude/Members.antt =====
-- What `keep` and `find` say of the elements of a list.
use mathlib.Core.Path.{◌≡◌}
use mathlib.Core.Bool.{Bool, true, false}
use mathlib.Core.List.{List, [], ◌∷◌, ◌++◌}
use mathlib.Core.Option.{none, some}
use native.Mathlib.Omega.{arith}
use mathlib.Core.Path.{refl}
use bluelab_backend_prod.Prelude.Lists.{any, keep, find, All}

module _ {ℓ} {A : Type ℓ} (p : A → Bool) where
  pub All-keep_test : (xs : List A) → All (λ x. p x ≡ true) (keep p xs)
  All-keep_test [] = tt
  All-keep_test (x ∷ xs) = ground (arith, All-keep_test xs)

  pub find-none : (xs : List A) → find p xs ≡ none → All (λ x. p x ≡ false) xs
  find-none [] h = tt
  find-none (x ∷ xs) h = ground (arith, find-none xs)

  pub find-some : (xs : List A) {a : A} → find p xs ≡ some a → p a ≡ true
  find-some [] h = cc
  find-some (x ∷ xs) {a} h = ground (arith, find-some xs {a = a})

module _ {ℓ κ} {A : Type ℓ} (P : A → Type κ) (p : A → Bool) where
  pub All-keep : (xs : List A) → All P xs → All P (keep p xs)
  All-keep [] h = tt
  All-keep (x ∷ xs) h = ground (arith, All-keep xs)

  -- What holds of all that is kept holds of every element that passes the test.
  pub All-of_keep : (xs : List A) → All P (keep p xs) → All (λ x. p x ≡ true → P x) xs
  All-of_keep [] h = tt
  All-of_keep (x ∷ xs) h = ground (arith, All-of_keep xs)

pub All-mono {ℓ κ μ} :
    {A : Type ℓ} (P : A → Type κ) (Q : A → Type μ) (xs : List A)
    → ((x : A) → P x → Q x)
    → All P xs
    → All Q xs
All-mono P Q [] f h = tt
All-mono P Q (x ∷ xs) f h = (f x h.0, All-mono P Q xs f h.1)

pub All-and {ℓ κ μ ν} :
    {A : Type ℓ} (P : A → Type κ) (Q : A → Type μ) (R : A → Type ν) (xs : List A)
    → ((x : A) → P x → Q x → R x)
    → All P xs
    → All Q xs
    → All R xs
All-and P Q R [] f h k = tt
All-and P Q R (x ∷ xs) f h k = (f x h.0 k.0, All-and P Q R xs f h.1 k.1)

pub All-last {ℓ κ} :
    {A : Type ℓ} (P : A → Type κ) (xs : List A) (y : A) → All P xs → P y → All P (xs ++ y ∷ [])
All-last P [] y h p = (p, tt)
All-last P (x ∷ xs) y h p = (h.0, All-last P xs y h.1 p)

pub any-ext {ℓ} :
    {A : Type ℓ} (p r : A → Bool) (xs : List A) → ((x : A) → p x ≡ r x) → any p xs ≡ any r xs
any-ext p r [] same = refl
any-ext p r (x ∷ xs) same = rw (same x, any-ext p r xs same) refl

pub any-none {ℓ} :
    {A : Type ℓ} (p : A → Bool) (xs : List A) → ((x : A) → p x ≡ false) → any p xs ≡ false
any-none p [] h = refl
any-none p (x ∷ xs) h = rw (h x, any-none p xs h) refl
