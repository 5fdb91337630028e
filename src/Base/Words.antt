-- ===== src/Base/Words.antt =====
-- encoding/binary: little-endian words.
use Prim.Native.Nat.{ℕ, zero, suc, ◌+◌, ◌*◌, ◌/◌, ◌%◌, ◌^◌, ◌<◌}
use mathlib.Core.List.{List, [], ◌∷◌, ◌++◌}
use mathlib.Core.Path.{◌≡◌, refl, ap, subst}
use native.Mathlib.Nat.{pow-suc}
use native.Mathlib.Omega.{arith}
use syscap.Base.Lists.{length, drop}
use syscap.Base.Text.{Bytes}

-- The low `count` bytes of a number, the lowest first.
unfoldable pub word_bytes : ℕ → ℕ → Bytes
word_bytes zero n = []
word_bytes (suc count) n = n % 256 ∷ word_bytes count (n / 256)

-- The number in the first `count` bytes. A missing byte reads as 0.
unfoldable pub word : ℕ → Bytes → ℕ
word zero s = 0
word (suc count) [] = 0
word (suc count) (b ∷ s) = b + 256 * word count s

-- `count` words of 64 bits.
unfoldable pub words_of : ℕ → Bytes → List ℕ
words_of zero s = []
words_of (suc count) s = word 8 s ∷ words_of count (drop 8 s)

unfoldable pub all_word_bytes : List ℕ → Bytes
all_word_bytes [] = []
all_word_bytes (n ∷ ns) = word_bytes 8 n ++ all_word_bytes ns

pub length-word_bytes : (count n : ℕ) → length (word_bytes count n) ≡ count
unfolding word_bytes
length-word_bytes zero n = refl
length-word_bytes (suc count) n = ap suc (length-word_bytes count (n / 256))

pub drop-word_bytes : (count n : ℕ) (rest : Bytes) → drop count (word_bytes count n ++ rest) ≡ rest
unfolding word_bytes
drop-word_bytes zero n rest = refl
drop-word_bytes (suc count) n rest = drop-word_bytes count (n / 256) rest

div_below : (n k : ℕ) → n < k * 256 → n / 256 < k
div_below n k h = omega arith

pub word-word_bytes :
    (count n : ℕ) → n < 256 ^ count → (rest : Bytes) → word count (word_bytes count n ++ rest) ≡ n
unfolding word_bytes word
word-word_bytes zero n h rest = omega arith
word-word_bytes (suc count) n h rest = omega (
  arith,
  word-word_bytes count (n / 256)
      (div_below n (256 ^ count) (subst (λ k. n < k) (pow-suc 256 count) h)) rest,
)

pub length-words_of : (count : ℕ) (s : Bytes) → length (words_of count s) ≡ count
unfolding words_of
length-words_of zero s = refl
length-words_of (suc count) s = ap suc (length-words_of count (drop 8 s))
