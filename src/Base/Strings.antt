-- ===== src/Base/Strings.antt =====
-- The rest of Go's `strings` that the program calls, over ASCII bytes: Fields, TrimSpace,
-- TrimLeft, HasPrefix, ReplaceAll, Contains and ContainsAny.
use Prim.Native.Nat.{ℕ, zero, suc, ◌-◌}
use mathlib.Core.Bool.{Bool, true, false, ◌&&◌, ◌||◌}
use mathlib.Core.List.{List, [], ◌∷◌, ◌++◌, reverse}
use mathlib.Core.Logic.{inl, inr}
use mathlib.Core.Path.{◌≡◌}
use syscap.Base.Lists.{length, All, any}
use syscap.Base.Tests.{if◌then◌else◌, eqb, leb, Bool-cases}
use syscap.Base.Text.{Bytes}

-- The ASCII white space of unicode.IsSpace.
abbrev pub is_space : ℕ → Bool
is_space c = eqb c b' ' || (leb b'\t' c && leb c b'\r')

-- A word goes ahead of the words behind it, if it has a letter.
abbrev pub ahead : Bytes → List Bytes → List Bytes
ahead [] ws = ws
ahead (c ∷ w) ws = (c ∷ w) ∷ ws

-- The letters up to the first space, and the words behind it.
unfoldable pub words : Bytes → Bytes × List Bytes
words [] = ([], [])
words (c ∷ s) = let (w, ws) = words s in if is_space c then ([], ahead w ws) else (c ∷ w, ws)

-- strings.Fields
unfoldable pub fields : Bytes → List Bytes
unfolding words
fields s = let (w, ws) = words s in ahead w ws

unfoldable pub trim_left : ℕ → Bytes → Bytes
trim_left c [] = []
trim_left c (x ∷ xs) = let rest = trim_left c xs in if eqb x c then rest else x ∷ xs

unfoldable pub skip_spaces : Bytes → Bytes
skip_spaces [] = []
skip_spaces (x ∷ xs) = let rest = skip_spaces xs in if is_space x then rest else x ∷ xs

-- strings.TrimSpace
unfoldable pub trim_space : Bytes → Bytes
unfolding skip_spaces
trim_space s = reverse (skip_spaces (reverse (skip_spaces s)))

-- strings.HasPrefix
unfoldable pub has_prefix : Bytes → Bytes → Bool
has_prefix s [] = true
has_prefix [] (p ∷ ps) = false
has_prefix (c ∷ s) (p ∷ ps) = eqb c p && has_prefix s ps

-- strings.Contains at one byte
abbrev pub has_byte : ℕ → Bytes → Bool
has_byte b = any (λ c. eqb c b)

-- strings.ReplaceAll with a non-empty `old`. The number counts the bytes of a hit still to pass.
replace_from : ℕ → Bytes → Bytes → Bytes → Bytes
replace_from n old new [] = []
replace_from (suc n) old new (c ∷ s) = replace_from n old new s
replace_from zero old new (c ∷ s) =
    let hit = has_prefix (c ∷ s) old in
    let rest = replace_from (if hit then length old - 1 else 0) old new s in
    if hit then new ++ rest else c ∷ rest

unfoldable pub replace_all : Bytes → Bytes → Bytes → Bytes
unfolding replace_from has_prefix
replace_all s old new = replace_from 0 old new s

abbrev pub NoSpace : Bytes → Type 0
NoSpace = All (λ c. is_space c ≡ false)

-- Every word has a letter, and no space.
abbrev pub IsWord : Bytes → Type 0
IsWord [] = ⊥
IsWord (c ∷ w) = NoSpace (c ∷ w)

ahead-IsWord : (w : Bytes) (ws : List Bytes) → NoSpace w → All IsWord ws → All IsWord (ahead w ws)
ahead-IsWord [] ws h k = k
ahead-IsWord (c ∷ w) ws h k = (h, k)

words-IsWord : (s : Bytes) → NoSpace (words s).0 × All IsWord (words s).1
unfolding words
words-IsWord [] = (tt, tt)
words-IsWord (c ∷ s) =
    let (letters, rest) = words-IsWord s in
    elim (Bool-cases (is_space c)) [
      | inl gap ↦ rw gap (tt, ahead-IsWord (words s).0 (words s).1 letters rest)
      | inr letter ↦ rw letter ((letter, letters), rest)
    ]

pub fields-IsWord : (s : Bytes) → All IsWord (fields s)
unfolding fields
fields-IsWord s = ahead-IsWord (words s).0 (words s).1 (words-IsWord s).0 (words-IsWord s).1
