-- ===== src/Base/Dict.antt =====
-- Go maps as association lists. A read of a missing key gives the zero value of the type.
use mathlib.Core.List.{List, [], ◌∷◌}
use mathlib.Core.Option.{Option, none, some}
use mathlib.Core.Path.{◌≡◌, refl, sym, ap, subst, ◌∙◌}
use mathlib.Core.Logic.{inl, inr}
use native.Mathlib.Omega.{arith}
use syscap.Base.Lists.{All}
use syscap.Base.Tests.{if◌then◌else◌, Eq, ◌==◌, Bool-cases, some_inj}

module _ {ℓ κ} {K : Type ℓ} ⦃e : Eq K⦄ {V : Type κ} where
  -- The first entry counts: a key stands once in a Go map.
  abbrev pub lookup : K → List (K × V) → Option V
  lookup k [] = none
  lookup k ((j, v) ∷ m) = if j == k then some v else lookup k m

  abbrev pub lookup_or : V → K → List (K × V) → V
  lookup_or zero_value k m = elim (lookup k m) [ none ↦ zero_value | some v ↦ v ]

  pub lookup-lookup_or :
      (d : V) (k : K) (m : List (K × V)) {v : V} → lookup k m ≡ some v → lookup_or d k m ≡ v
  lookup-lookup_or d k m known = rw (known, lookup_or) refl

  abbrev pub insert : K → V → List (K × V) → List (K × V)
  insert k v [] = (k, v) ∷ []
  insert k v ((j, w) ∷ m) = if j == k then (j, v) ∷ m else (j, w) ∷ insert k v m

  pub lookup-insert :
      (k j : K) (v : V) (m : List (K × V))
      → lookup j (insert k v m) ≡ (if k == j then some v else lookup j m)
  lookup-insert k j v [] = refl
  lookup-insert k j v ((i, w) ∷ m) =
      ground (arith, e.equal_iff k j, e.equal_iff i k, e.equal_iff i j, lookup-insert k j v m)

  pub lookup_or-insert :
      (d : V) (k j : K) (v : V) (m : List (K × V))
      → lookup_or d j (insert k v m) ≡ (if k == j then v else lookup_or d j m)
  lookup_or-insert d k j v m = ground (arith, lookup-insert k j v m)

  -- delete(m, k)
  abbrev pub remove : K → List (K × V) → List (K × V)
  remove k [] = []
  remove k ((j, w) ∷ m) = let rest = remove k m in if j == k then rest else (j, w) ∷ rest

  pub lookup-remove :
      (k j : K) (m : List (K × V)) → lookup j (remove k m) ≡ (if k == j then none else lookup j m)
  lookup-remove k j [] = ground arith
  lookup-remove k j ((i, w) ∷ m) =
      ground (arith, e.equal_iff k j, e.equal_iff i k, e.equal_iff i j, lookup-remove k j m)

  pub All-insert {μ} :
      (P : K × V → Type μ) (k : K) (v : V) (m : List (K × V))
      → P (k, v)
      → All P m
      → All P (insert k v m)
  All-insert P k v [] new h = (new, tt)
  All-insert P k v ((j, w) ∷ m) new h = elim (Bool-cases (j == k)) [
    | inl same ↦ rw same (subst (λ i. P (i, v)) (sym ((e.equal_iff j k).0 same)) new, h.1)
    | inr other ↦ rw other (h.0, All-insert P k v m new h.1)
  ]

  pub All-remove {μ} :
      (P : K × V → Type μ) (k : K) (m : List (K × V)) → All P m → All P (remove k m)
  All-remove P k [] h = tt
  All-remove P k ((j, w) ∷ m) h = elim (Bool-cases (j == k)) [
    | inl same ↦ rw same (All-remove P k m h.1)
    | inr other ↦ rw other (h.0, All-remove P k m h.1)
  ]

  pub All-lookup {μ} :
      (P : K × V → Type μ) (m : List (K × V)) (k : K) {v : V}
      → All P m
      → lookup k m ≡ some v
      → P (k, v)
  All-lookup P [] k h l = cc
  All-lookup P ((j, w) ∷ m) k h l = elim (Bool-cases (j == k)) [
    | inl same ↦
        subst P
          (ap (λ i. (i, w)) ((e.equal_iff j k).0 same) ∙ ap (λ x. (k, x)) (some_inj (rw same at l)))
          h.0
    | inr other ↦ All-lookup P m k h.1 (rw other at l)
  ]
