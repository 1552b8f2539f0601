-- ===== src/Base/Faults.antt =====
-- The result of code that may stop: by a failed assertion, by an access or an operation that C
-- leaves undefined, by a call of exit, or, in the model of a loop, by spent fuel.
use mathlib.Core.Path.{◌≡◌, refl}

pub data Fault : Type 0 where
  assert_failed bad_access undefined exited out_of_fuel : Fault

pub data Outcome {ℓ} (A : Type ℓ) : Type ℓ where
  ok : A → Outcome A
  fault : Fault → Outcome A

infixl 5 ◌>>=◌
abbrev pub ◌>>=◌ {ℓ κ} : {A : Type ℓ} {B : Type κ} → Outcome A → (A → Outcome B) → Outcome B
ok a >>= f = f a
fault e >>= f = fault e

-- The code returns, and what it returns satisfies `P`.
abbrev pub Ensures {ℓ} : {A : Type ℓ} → (A → Type 0) → Outcome A → Type 0
Ensures P (ok a) = P a
Ensures P (fault e) = ⊥

-- The code calls exit, or it returns and what it returns satisfies `P`.
abbrev pub Runs {ℓ} : {A : Type ℓ} → (A → Type 0) → Outcome A → Type 0
Runs P (ok a) = P a
Runs P (fault exited) = Unit
Runs P (fault _) = ⊥

module _ {ℓ} {A : Type ℓ} where
  pub Runs-imp : (P Q : A → Type 0) (m : Outcome A) → ((a : A) → P a → Q a) → Runs P m → Runs Q m
  Runs-imp P Q (ok a) f h = f a h
  Runs-imp P Q (fault exited) f h = tt
  Runs-imp P Q (fault assert_failed) f h = h
  Runs-imp P Q (fault bad_access) f h = h
  Runs-imp P Q (fault undefined) f h = h
  Runs-imp P Q (fault out_of_fuel) f h = h

  pub Runs-bind {κ} :
      {B : Type κ} (P : A → Type 0) (Q : B → Type 0) (m : Outcome A) (f : A → Outcome B)
      → Runs P m
      → ((a : A) → P a → Runs Q (f a))
      → Runs Q (m >>= f)
  Runs-bind P Q (ok a) f h k = k a h
  Runs-bind P Q (fault exited) f h k = tt
  Runs-bind P Q (fault assert_failed) f h k = absurd h
  Runs-bind P Q (fault bad_access) f h k = absurd h
  Runs-bind P Q (fault undefined) f h k = absurd h
  Runs-bind P Q (fault out_of_fuel) f h k = absurd h

  pub Ensures-Runs : (P : A → Type 0) (m : Outcome A) → Ensures P m → Runs P m
  Ensures-Runs P (ok a) h = h
  Ensures-Runs P (fault e) h = absurd h

  pub Ensures-imp :
      (P Q : A → Type 0) (m : Outcome A) → ((a : A) → P a → Q a) → Ensures P m → Ensures Q m
  Ensures-imp P Q (ok a) f h = f a h
  Ensures-imp P Q (fault e) f h = h

  -- What `Ensures` says, with the value.
  pub Ensures-value : (P : A → Type 0) (m : Outcome A) → Ensures P m → (a : A) × (m ≡ ok a) × P a
  Ensures-value P (ok a) h = (a, refl, h)
  Ensures-value P (fault e) h = absurd h

  pub Ensures-bind {κ} :
      {B : Type κ} (P : A → Type 0) (Q : B → Type 0) (m : Outcome A) (f : A → Outcome B)
      → Ensures P m
      → ((a : A) → P a → Ensures Q (f a))
      → Ensures Q (m >>= f)
  Ensures-bind P Q (ok a) f h k = k a h
  Ensures-bind P Q (fault e) f h k = absurd h

  pub >>=-eq-ok {κ} :
      {B : Type κ} (first : Outcome A) (then_do : A → Outcome B) {last : B}
      → (first >>= then_do) ≡ ok last
      → (x : A) × (first ≡ ok x) × (then_do x ≡ ok last)
  >>=-eq-ok (ok x) then_do returns = (x, refl, returns)
  >>=-eq-ok (fault why) then_do returns = cc

  pub bind_assoc {κ μ} :
      {B : Type κ} {C : Type μ} (m : Outcome A) (f : A → Outcome B) (g : B → Outcome C)
      → (m >>= f >>= g) ≡ (m >>= λ a. f a >>= g)
  bind_assoc (ok a) f g = refl
  bind_assoc (fault e) f g = refl

-- What `Runs` says, with the equation.
pub Runs-value :
    {A : Type 0} (P : A → Type 0) (m : Outcome A) → Runs P m → Runs (λ a. (m ≡ ok a) × P a) m
Runs-value P (ok a) h = (refl, h)
Runs-value P (fault exited) h = tt
Runs-value P (fault assert_failed) h = h
Runs-value P (fault bad_access) h = h
Runs-value P (fault undefined) h = h
Runs-value P (fault out_of_fuel) h = h

-- Two things that hold of what is returned.
pub Runs-both :
    {A : Type 0} (P Q : A → Type 0) (m : Outcome A) → Runs P m → Runs Q m → Runs (λ a. P a × Q a) m
Runs-both P Q (ok a) h k = (h, k)
Runs-both P Q (fault exited) h k = tt
Runs-both P Q (fault assert_failed) h k = h
Runs-both P Q (fault bad_access) h k = h
Runs-both P Q (fault undefined) h k = h
Runs-both P Q (fault out_of_fuel) h k = h

pub Runs-ok : {A : Type 0} (P : A → Type 0) (m : Outcome A) (a : A) → m ≡ ok a → Runs P m → P a
Runs-ok P (ok b) a e h = let q : b ≡ a = cc in rw (← q) h
Runs-ok P (fault x) a e h = cc

-- The code does not run out of fuel, and what it returns satisfies `P`.
abbrev pub Settles {ℓ} : {A : Type ℓ} → (A → Type 0) → Outcome A → Type 0
Settles P (ok a) = P a
Settles P (fault out_of_fuel) = ⊥
Settles P (fault _) = Unit

module _ {ℓ} {A : Type ℓ} where
  pub Settles-bind {κ} :
      {B : Type κ} (P : A → Type 0) (Q : B → Type 0) (m : Outcome A) (f : A → Outcome B)
      → Settles P m
      → ((a : A) → P a → Settles Q (f a))
      → Settles Q (m >>= f)
  Settles-bind P Q (ok a) f h k = k a h
  Settles-bind P Q (fault exited) f h k = tt
  Settles-bind P Q (fault assert_failed) f h k = tt
  Settles-bind P Q (fault bad_access) f h k = tt
  Settles-bind P Q (fault undefined) f h k = tt
  Settles-bind P Q (fault out_of_fuel) f h k = absurd h

  pub Ensures-Settles : (P : A → Type 0) (m : Outcome A) → Ensures P m → Settles P m
  Ensures-Settles P (ok a) h = h
  Ensures-Settles P (fault e) h = absurd h

  pub Settles-imp :
      (P Q : A → Type 0) (m : Outcome A) → ((a : A) → P a → Q a) → Settles P m → Settles Q m
  Settles-imp P Q (ok a) f h = f a h
  Settles-imp P Q (fault exited) f h = h
  Settles-imp P Q (fault assert_failed) f h = h
  Settles-imp P Q (fault bad_access) f h = h
  Settles-imp P Q (fault undefined) f h = h
  Settles-imp P Q (fault out_of_fuel) f h = h
