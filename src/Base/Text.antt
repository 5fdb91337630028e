-- ===== src/Base/Text.antt =====
-- Go strings as bytes, and what the program uses of `strings` and `strconv`. The program's own
-- texts are ASCII, where a byte is a character.
use Prim.Native.Char.{code}
use Prim.Native.Nat.{ℕ, zero, suc, ◌+◌, ◌-◌, ◌/◌, ◌%◌}
use Prim.Native.String.{String}
use mathlib.Core.Bool.{Bool, true, false, ◌&&◌, ◌||◌}
use mathlib.Core.List.{List, [], ◌∷◌, ◌++◌}
use mathlib.Core.Logic.{◌↔◌, inl, inr}
use mathlib.Core.Path.{◌≡◌, refl, ap}
use native.Mathlib.Omega.{arith}
use syscap.Base.Tests.{if◌then◌else◌, ltb, eqb, eqb_iff, Eq, Bool-cases}

abbrev pub Bytes : Type 0
Bytes = List ℕ

abbrev pub codes : String → Bytes
codes String.[] = []
codes (String.◌∷◌ c s) = code c ∷ codes s

abbrev pub bytes_eq : Bytes → Bytes → Bool
bytes_eq [] [] = true
bytes_eq (x ∷ xs) (y ∷ ys) = eqb x y && bytes_eq xs ys
bytes_eq _ _ = false

pub bytes_eq_iff : (a b : Bytes) → (bytes_eq a b ≡ true) ↔ (a ≡ b)
bytes_eq_iff (x ∷ a) (y ∷ b) = ground (arith, bytes_eq_iff a b)
bytes_eq_iff _ _ = ground arith

instance abbrev pub bytes_has_eq : Eq Bytes
bytes_has_eq = record { equal = bytes_eq; equal_iff = bytes_eq_iff }

-- `a <= b` on strings: byte by byte, a prefix first.
abbrev pub bytes_le : Bytes → Bytes → Bool
bytes_le [] _ = true
bytes_le (x ∷ xs) [] = false
bytes_le (x ∷ xs) (y ∷ ys) = ltb x y || (eqb x y && bytes_le xs ys)

-- strings.Join
unfoldable pub join : Bytes → List Bytes → Bytes
join sep [] = []
join sep (p ∷ []) = p
join sep (p ∷ (q ∷ ps)) = p ++ (sep ++ join sep (q ∷ ps))

-- strings.Split at a separator of one byte. The piece read so far is the first argument's head.
abbrev pub onto_first : ℕ → List Bytes → List Bytes
onto_first c [] = (c ∷ []) ∷ []
onto_first c (p ∷ ps) = (c ∷ p) ∷ ps

unfoldable pub split : ℕ → Bytes → List Bytes
split sep [] = [] ∷ []
split sep (c ∷ s) = let rest = split sep s in if eqb c sep then [] ∷ rest else onto_first c rest

join-onto_first :
    (c : ℕ) (sep : Bytes) (ps : List Bytes) → join sep (onto_first c ps) ≡ c ∷ join sep ps
unfolding join
join-onto_first c sep [] = refl
join-onto_first c sep (p ∷ []) = refl
join-onto_first c sep (p ∷ (q ∷ ps)) = refl

split-ne-nil : (sep : ℕ) (s : Bytes) → (p : Bytes) × (ps : List Bytes) × (split sep s ≡ p ∷ ps)
unfolding split
split-ne-nil sep [] = ([], [], refl)
split-ne-nil sep (c ∷ s) =
    let (p, ps, e) = split-ne-nil sep s in
    elim (Bool-cases (eqb c sep)) [
      | inl at ↦ ([], split sep s, rw at)
      | inr off ↦ (c ∷ p, ps, rw (off, e))
    ]

join-nil_cons :
    (sep p : Bytes) (ps : List Bytes) → join sep ([] ∷ (p ∷ ps)) ≡ sep ++ join sep (p ∷ ps)
unfolding join
join-nil_cons sep p ps = refl

-- `Join` with the separator undoes `Split`.
pub join-split_lem : (sep : ℕ) (s : Bytes) → join (sep ∷ []) (split sep s) ≡ s
unfolding split
join-split_lem sep [] = unfold join in refl
join-split_lem sep (c ∷ s) =
    let (p, ps, e) = split-ne-nil sep s in
    let whole = join-split_lem sep s in
    elim (Bool-cases (eqb c sep)) [
      | inl at ↦ rw (at, e, join-nil_cons) (cc ((eqb_iff c sep).0 at, e, whole))
      | inr off ↦ rw (off, join-onto_first) (ap (◌∷◌ c) whole)
    ]

-- strconv.FormatUint and `%x`: the digits of `n`, ahead of `rest`. The fuel bounds their number.
unfoldable pub digit : ℕ → ℕ
digit d = if ltb d 10 then b'0' + d else b'a' + (d - 10)

unfoldable pub print_digits : ℕ → ℕ → ℕ → Bytes → Bytes
print_digits base zero n rest = rest
print_digits base (suc fuel) n rest =
    let more = print_digits base fuel (n / base) (digit (n % base) ∷ rest) in
    if ltb n base then digit n ∷ rest else more

unfoldable pub decimal : ℕ → Bytes
unfolding print_digits digit
decimal n = print_digits 10 (suc n) n []

unfoldable pub hexadecimal : ℕ → Bytes
unfolding print_digits digit
hexadecimal n = print_digits 16 (suc n) n []
