-- ===== src/Prelude/Keep.antt =====
-- Rust's `Vec::retain`, and lists in which no two elements clash.
use mathlib.Core.Path.{◌≡◌, refl, ap}
use mathlib.Core.Logic.{inl, inr}
use mathlib.Core.List.{List, [], ◌∷◌, ◌++◌}
use mathlib.Core.Bool.{Bool, true}
use native.Mathlib.Omega.{arith}
use oxide_ssh.Prelude.Tests.{if◌then◌else◌, Bool-cases}
use oxide_ssh.Prelude.Lists.{All}

module _ {ℓ} {A : Type ℓ} where
  abbrev pub retain : (A → Bool) → List A → List A
  retain p [] = []
  retain p (x ∷ xs) = if p x then x ∷ retain p xs else retain p xs

  -- No element stands before one that it clashes with.
  abbrev pub Apart {κ} : (A → A → Type κ) → List A → Type κ
  Apart r [] = Unit
  Apart r (x ∷ xs) = All (λ y. ¬ r x y) xs × Apart r xs

  pub All-retain {κ} :
      (P : A → Type κ) (p : A → Bool) (xs : List A) → All P xs → All P (retain p xs)
  All-retain P p [] h = tt
  All-retain P p (x ∷ xs) h = elim (Bool-cases (p x)) [
    | inl kept ↦ rw kept (h.0, All-retain P p xs h.1)
    | inr gone ↦ rw gone (All-retain P p xs h.1)
  ]

  pub All-retain_test : (p : A → Bool) (xs : List A) → All (λ x. p x ≡ true) (retain p xs)
  All-retain_test p [] = tt
  All-retain_test p (x ∷ xs) = elim (Bool-cases (p x)) [
    | inl kept ↦ rw kept (kept, All-retain_test p xs)
    | inr gone ↦ rw gone (All-retain_test p xs)
  ]

  pub Apart-retain {κ} :
      (r : A → A → Type κ) (p : A → Bool) (xs : List A) → Apart r xs → Apart r (retain p xs)
  Apart-retain r p [] h = tt
  Apart-retain r p (x ∷ xs) h = elim (Bool-cases (p x)) [
    | inl kept ↦ rw kept (All-retain _ p xs h.0, Apart-retain r p xs h.1)
    | inr gone ↦ rw gone (Apart-retain r p xs h.1)
  ]

  pub Apart-snoc {κ} :
      (r : A → A → Type κ) (xs : List A) (y : A)
      → Apart r xs
      → All (λ x. ¬ r x y) xs
      → Apart r (xs ++ y ∷ [])
  Apart-snoc r [] y h k = (tt, tt)
  Apart-snoc r (x ∷ xs) y h k = (snoc_all xs h.0, Apart-snoc r xs y h.1 k.1)
    where
      snoc_all : (zs : List A) → All (λ z. ¬ r x z) zs → All (λ z. ¬ r x z) (zs ++ y ∷ [])
      snoc_all [] a = (k.0, tt)
      snoc_all (z ∷ zs) a = (a.0, snoc_all zs a.1)

  pub retain-eq_self : (p : A → Bool) (xs : List A) → All (λ x. p x ≡ true) xs → retain p xs ≡ xs
  retain-eq_self p [] h = refl
  retain-eq_self p (x ∷ xs) h = rw h.0 (ap (◌∷◌ x) (retain-eq_self p xs h.1))

  pub retain-append :
      (p : A → Bool) (xs ys : List A) → retain p (xs ++ ys) ≡ retain p xs ++ retain p ys
  retain-append p [] ys = refl
  retain-append p (x ∷ xs) ys = ground (arith, retain-append p xs ys)
