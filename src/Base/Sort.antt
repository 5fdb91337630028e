-- ===== src/Base/Sort.antt =====
-- sort.Strings and sort.Slice. Equal entries of what the program sorts are the same value, so the
-- ascending rearrangement is unique, and insertion gives the one that Go's sort gives.
use Prim.Native.Nat.{suc}
use mathlib.Core.Bool.{Bool, true, false}
use mathlib.Core.List.{List, [], ◌∷◌, Perm}
use mathlib.Core.List.Perm
use mathlib.Core.Logic.{inl, inr}
use mathlib.Core.Path.{◌≡◌, refl, ap, ◌∙◌}
use native.Mathlib.Omega.{arith}
use syscap.Base.Lists.{length, All}
use syscap.Base.Tests.{if◌then◌else◌, Bool-cases}

module _ {ℓ} {A : Type ℓ} (le : A → A → Bool) where
  pub place : A → List A → List A
  place x [] = x ∷ []
  place x (y ∷ ys) = if le x y then x ∷ (y ∷ ys) else y ∷ place x ys

  unfoldable pub sort_by : List A → List A
  unfolding place
  sort_by [] = []
  sort_by (x ∷ xs) = place x (sort_by xs)

  abbrev pub IsSorted : List A → Type 0
  IsSorted [] = Unit
  IsSorted (x ∷ xs) = All (λ y. le x y ≡ true) xs × IsSorted xs

  place-perm : (x : A) (ys : List A) → Perm (place x ys) (x ∷ ys)
  unfolding place
  place-perm x [] = Perm.rfl
  place-perm x (y ∷ ys) = elim (Bool-cases (le x y)) [
    | inl first ↦ rw first Perm.rfl
    | inr later ↦ rw later (Perm.trans (Perm.cons y (place-perm x ys)) (Perm.swap x y ys))
  ]

  pub sort_by-perm : (xs : List A) → Perm (sort_by xs) xs
  unfolding sort_by
  sort_by-perm [] = Perm.rfl
  sort_by-perm (x ∷ xs) = Perm.trans (place-perm x (sort_by xs)) (Perm.cons x (sort_by-perm xs))

  -- A sorted list is left as it is.
  pub sort_by-IsSorted_self : (xs : List A) → IsSorted xs → sort_by xs ≡ xs
  unfolding sort_by place
  sort_by-IsSorted_self [] h = refl
  sort_by-IsSorted_self (x ∷ []) h = refl
  sort_by-IsSorted_self (x ∷ (y ∷ ys)) (below, sorted) =
      ap (place x) (sort_by-IsSorted_self (y ∷ ys) sorted) ∙ rw below.0

  module _ (total : (x y : A) → le x y ≡ false → le y x ≡ true)
      (trans : (x y z : A) → le x y ≡ true → le y z ≡ true → le x z ≡ true) where
    below_trans :
        (x y : A) (zs : List A)
        → le x y ≡ true
        → All (λ z. le y z ≡ true) zs
        → All (λ z. le x z ≡ true) zs
    below_trans x y [] h k = tt
    below_trans x y (z ∷ zs) h (first, k) = (trans x y z h first, below_trans x y zs h k)

    below-place :
        (x y : A) (zs : List A)
        → le x y ≡ true
        → All (λ z. le x z ≡ true) zs
        → All (λ z. le x z ≡ true) (place y zs)
    unfolding place
    below-place x y [] h k = (h, tt)
    below-place x y (z ∷ zs) h (first, k) = elim (Bool-cases (le y z)) [
      | inl e ↦ rw e (h, (first, k))
      | inr e ↦ rw e (first, below-place x y zs h k)
    ]

    place-IsSorted : (x : A) (ys : List A) → IsSorted ys → IsSorted (place x ys)
    unfolding place
    place-IsSorted x [] s = (tt, tt)
    place-IsSorted x (y ∷ ys) (below, s) = elim (Bool-cases (le x y)) [
      | inl e ↦ rw e ((e, below_trans x y ys e below), (below, s))
      | inr e ↦ rw e (below-place y x ys (total x y e) below, place-IsSorted x ys s)
    ]

    pub sort_by-IsSorted : (xs : List A) → IsSorted (sort_by xs)
    unfolding sort_by
    sort_by-IsSorted [] = tt
    sort_by-IsSorted (x ∷ xs) = place-IsSorted x (sort_by xs) (sort_by-IsSorted xs)

  length-place : (y : A) (ys : List A) → length (place y ys) ≡ suc (length ys)
  unfolding place
  length-place y [] = refl
  length-place y (z ∷ zs) = ground (arith, length-place y zs)

  pub length-sort_by : (xs : List A) → length (sort_by xs) ≡ length xs
  unfolding sort_by
  length-sort_by [] = refl
  length-sort_by (x ∷ xs) = length-place x (sort_by xs) ∙ ap suc (length-sort_by xs)

  place-All {κ} : (P : A → Type κ) (x : A) (ys : List A) → P x → All P ys → All P (place x ys)
  unfolding place
  place-All P x [] p h = (p, tt)
  place-All P x (y ∷ ys) p h = elim (Bool-cases (le x y)) [
    | inl first ↦ rw first (p, h)
    | inr later ↦ rw later (h.0, place-All P x ys p h.1)
  ]

  pub sort_by-All {κ} : (P : A → Type κ) (xs : List A) → All P xs → All P (sort_by xs)
  unfolding sort_by
  sort_by-All P [] h = tt
  sort_by-All P (x ∷ xs) h = place-All P x (sort_by xs) h.0 (sort_by-All P xs h.1)
