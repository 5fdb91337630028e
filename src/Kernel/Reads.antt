-- ===== src/Kernel/Reads.antt =====
-- bpf/program.bpf.c: what the reads of user memory leave in deref_args, and the range of errno.
use syscap.Base.{
  ℕ, suc, ◌%◌, ◌^◌, ◌<◌, false, List, [], ◌∷◌, Option, ◌≡◌, refl, ap, inl, inr, arith, Bool-cases,
  ltb, ◌==◌, nat_eq, length, All, ℤ, pos, negsuc,
}
use syscap.Kernel.{is_pointer, probe, first_reads, second_reads, errno_of}
use syscap.Wire.RoundTrip.{IsInt}
use syscap.Wire.{to_int32}

abbrev pub IsWord : ℕ → Type 0
IsWord n = n < 256 ^ 8

-- The memory of a process holds words.
abbrev pub IsMemory : (ℕ → Option ℕ) → Type 0
IsMemory user = (address : ℕ) → IsWord (probe user address)

-- A word that is not 0 belongs to a pointer argument.
unfoldable pub Masked : ℕ → ℕ → List ℕ → Type 0
Masked mask i [] = Unit
Masked mask i (w ∷ words) = (is_pointer mask i ≡ false → w ≡ 0) × Masked mask (suc i) words

module _ (user : ℕ → Option ℕ) (mask : ℕ) (memory : IsMemory user) where
  pub first_reads-Masked :
      (i : ℕ) (args : List ℕ)
      → (length (first_reads user mask i args) ≡ length args)
        × All IsWord (first_reads user mask i args)
        × Masked mask i (first_reads user mask i args)
  unfolding first_reads Masked
  first_reads-Masked i [] = (refl, tt, tt)
  first_reads-Masked i (arg ∷ args) =
      let (same, below, masked) = first_reads-Masked (suc i) args in
      elim (Bool-cases (is_pointer mask i)) [
        | inl yes_pointer ↦ rw yes_pointer (ap suc same, (memory arg, below), ((λ h. cc), masked))
        | inr plain ↦ rw plain (ap suc same, (omega arith, below), ((λ h. refl), masked))
      ]

  pub second_reads-Masked :
      (i : ℕ) (args words : List ℕ)
      → All IsWord words
      → Masked mask i words
      → (length (second_reads user mask i args words) ≡ length words)
        × All IsWord (second_reads user mask i args words)
        × Masked mask i (second_reads user mask i args words)
  unfolding second_reads Masked
  second_reads-Masked i args [] h m = (refl, tt, tt)
  second_reads-Masked i [] (w ∷ words) h m = (refl, h, m)
  second_reads-Masked i (arg ∷ args) (w ∷ words) h m =
      let (same, below, masked) = second_reads-Masked (suc i) args words h.1 m.1 in
      elim (Bool-cases (w == 0)) [
        | inr word ↦ rw word (ap suc same, (h.0, below), (m.0, masked))
        | inl zero_word ↦ elim (Bool-cases (is_pointer mask i)) [
          | inl pointer ↦
              rw zero_word (rw pointer (ap suc same, (memory arg, below), ((λ e. cc), masked)))
          | inr plain ↦
              rw zero_word (rw plain (ap suc same, (omega arith, below), ((λ e. refl), masked)))
        ]
      ]

to_int32-IsInt : (n : ℕ) → n < 2 ^ 32 → IsInt (2 ^ 31) (to_int32 n)
unfolding to_int32
to_int32-IsInt n h = elim (Bool-cases (ltb n (2 ^ 31))) [
  | inl small ↦ rw small (ground arith)
  | inr big ↦ rw big (ground arith)
]

pub errno_of-IsInt : (ret : ℤ) → IsInt (2 ^ 31) (errno_of ret)
unfolding errno_of
errno_of-IsInt (pos n) = omega arith
errno_of-IsInt (negsuc n) = to_int32-IsInt (suc n % 2 ^ 32) (omega arith)
