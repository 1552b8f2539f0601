-- ===== src/Types/Pointers.antt =====
-- Reading and writing through a pointer (Types/Store), on lists that grow at their ends.
use metagen.Base.{
  ℕ, zero, suc, ◌≤◌, ◌≡◌, ◌≢◌, ◌⊎◌, inl, inr, refl, ap, arith, List, [], ◌∷◌, ◌++◌, length, ok,
}
use metagen.Types.Store.{deref, assign}

module _ {ℓ} {A : Type ℓ} where
  pub deref-bound : (xs : List A) (p : ℕ) (x : A) → deref xs p ≡ ok x → (1 ≤ p) × (p ≤ length xs)
  deref-bound xs zero x e = cc
  deref-bound [] (suc n) x e = cc
  deref-bound (y ∷ ys) (suc zero) x e = (omega arith, omega arith)
  deref-bound (y ∷ ys) (suc (suc n)) x e =
      let b = deref-bound ys (suc n) x e in (omega arith, omega (arith, b.1))

  pub deref-within : (xs : List A) (p : ℕ) → 1 ≤ p → p ≤ length xs → (x : A) × (deref xs p ≡ ok x)
  deref-within xs zero a b = absurd (omega (arith, a))
  deref-within [] (suc n) a b = absurd (omega (arith, b))
  deref-within (y ∷ ys) (suc zero) a b = (y, refl)
  deref-within (y ∷ ys) (suc (suc n)) a b = deref-within ys (suc n) (omega arith) (omega (arith, b))

  pub deref-append :
      (xs ys : List A) (p : ℕ) (x : A) → deref xs p ≡ ok x → deref (xs ++ ys) p ≡ ok x
  deref-append xs ys zero x e = cc
  deref-append [] ys (suc n) x e = cc
  deref-append (z ∷ zs) ys (suc zero) x e = e
  deref-append (z ∷ zs) ys (suc (suc n)) x e = deref-append zs ys (suc n) x e

  pub deref-last : (xs : List A) (x : A) → deref (xs ++ x ∷ []) (suc (length xs)) ≡ ok x
  deref-last [] x = refl
  deref-last (y ∷ ys) x = deref-last ys x

  pub deref-append-cases :
      (xs : List A) (y : A) (p : ℕ) (x : A)
      → deref (xs ++ y ∷ []) p ≡ ok x
      → (deref xs p ≡ ok x) ⊎ ((p ≡ suc (length xs)) × (x ≡ y))
  deref-append-cases xs y zero x e = cc
  deref-append-cases [] y (suc zero) x e = inr (refl, cc)
  deref-append-cases [] y (suc (suc n)) x e = cc
  deref-append-cases (z ∷ zs) y (suc zero) x e = inl e
  deref-append-cases (z ∷ zs) y (suc (suc n)) x e = elim (deref-append-cases zs y (suc n) x e) [
    | inl h ↦ inl h
    | inr h ↦ inr (ap suc h.0, h.1)
  ]

  pub deref-assign :
      (xs : List A) (p : ℕ) (x y : A) → deref xs p ≡ ok x → deref (assign xs p y) p ≡ ok y
  deref-assign xs zero x y e = cc
  deref-assign [] (suc n) x y e = cc
  deref-assign (z ∷ zs) (suc zero) x y e = refl
  deref-assign (z ∷ zs) (suc (suc n)) x y e = deref-assign zs (suc n) x y e

  pub deref-assign-other :
      (xs : List A) (p q : ℕ) (y : A) → q ≢ p → deref (assign xs p y) q ≡ deref xs q
  deref-assign-other [] p q y d = refl
  deref-assign-other (z ∷ zs) zero q y d = refl
  deref-assign-other (z ∷ zs) (suc p) zero y d = refl
  deref-assign-other (z ∷ zs) (suc zero) (suc zero) y d = absurd (d refl)
  deref-assign-other (z ∷ zs) (suc zero) (suc (suc q)) y d = refl
  deref-assign-other (z ∷ zs) (suc (suc p)) (suc zero) y d = refl
  deref-assign-other (z ∷ zs) (suc (suc p)) (suc (suc q)) y d =
      deref-assign-other zs (suc p) (suc q) y (λ e. d (ap suc e))

  pub length-assign : (xs : List A) (p : ℕ) (x : A) → length (assign xs p x) ≡ length xs
  length-assign [] p x = refl
  length-assign (y ∷ ys) zero x = refl
  length-assign (y ∷ ys) (suc zero) x = refl
  length-assign (y ∷ ys) (suc (suc n)) x = ap suc (length-assign ys (suc n) x)
