-- ===== src/Startup/Container/Numbers.antt =====
-- main.go: strconv.Atoi reads what prints a process id.
use syscap.Base.{
  ℕ, zero, suc, ◌+◌, ◌-◌, ◌*◌, ◌/◌, ◌%◌, ◌^◌, ◌<◌, true, false, [], ◌∷◌, some, eqb, ltb, leb,
  bytes_has_eq, Bytes, ℤ, pos, ◌≡◌, refl, sym, ap, subst, ◌∙◌, inl, inr, arith, Bool-cases,
  is_digit, Digits, decimal, print_digits, digit, decimal-Digits, digit-is_digit,
}
use syscap.Startup.Container.{digits_from, unsigned, atoi}

digit_value : (d : ℕ) → d < 10 → digit d - b'0' ≡ d
unfolding digit
digit_value d h = ground arith

digits_from-digit :
    (acc d : ℕ) (rest : Bytes)
    → d < 10
    → digits_from acc (digit d ∷ rest) ≡ digits_from (acc * 10 + d) rest
unfolding digits_from
digits_from-digit acc d rest h =
    rw (digit-is_digit d h) (ap (λ v. digits_from (acc * 10 + v) rest) (digit_value d h))

digits_from-print_digits :
    (fuel n : ℕ) (rest : Bytes)
    → n < fuel
    → digits_from 0 (print_digits 10 fuel n rest) ≡ digits_from n rest
unfolding print_digits
digits_from-print_digits zero n rest h = absurd (omega arith)
digits_from-print_digits (suc fuel) n rest h = elim (Bool-cases (ltb n 10)) [
  | inl last ↦
      rw last
        (digits_from-digit 0 n rest (ground arith) ∙ ap (λ v. digits_from v rest) (omega arith))
  | inr more ↦ rw more (
      digits_from-print_digits fuel (n / 10) (digit (n % 10) ∷ rest) (ground arith)
      ∙ digits_from-digit (n / 10) (n % 10) rest (omega arith)
      ∙ ap (λ v. digits_from v rest) (omega arith))
]

digits_from-decimal : (n : ℕ) → digits_from 0 (decimal n) ≡ some n
unfolding decimal
digits_from-decimal n =
    digits_from-print_digits (suc n) n [] (omega arith) ∙ unfold digits_from in refl

unsigned_digits :
    (limit : ℕ) (signed : ℕ → ℤ) (c : ℕ) (s : Bytes) {n : ℕ}
    → digits_from 0 (c ∷ s) ≡ some n
    → leb n limit ≡ true
    → unsigned limit signed (c ∷ s) ≡ some (signed n)
unfolding unsigned
unsigned_digits limit signed c s read small = rw (read, unsigned) (rw small)

digit_no_sign : (c : ℕ) → is_digit c ≡ true → (eqb c b'-' ≡ false) × (eqb c b'+' ≡ false)
digit_no_sign c h = (ground arith, ground arith)

atoi_digits :
    (c : ℕ) (s : Bytes) {n : ℕ}
    → is_digit c ≡ true
    → digits_from 0 (c ∷ s) ≡ some n
    → leb n (2 ^ 63 - 1) ≡ true
    → atoi (c ∷ s) ≡ some (pos n)
unfolding atoi
atoi_digits c s h read small =
    let (no_minus, no_plus) = digit_no_sign c h in
    rw no_minus (rw no_plus (unsigned_digits (2 ^ 63 - 1) pos c s read small))

print_digits-cons :
    (fuel n c : ℕ) (s : Bytes) → (d : ℕ) × (t : Bytes) × (print_digits 10 fuel n (c ∷ s) ≡ d ∷ t)
unfolding print_digits
print_digits-cons zero n c s = (c, s, refl)
print_digits-cons (suc fuel) n c s = elim (Bool-cases (ltb n 10)) [
  | inl last ↦ (digit n, c ∷ s, rw last)
  | inr more ↦
      let (d, t, e) = print_digits-cons fuel (n / 10) (digit (n % 10)) (c ∷ s) in
      (d, t, rw (more, e))
]

decimal-cons : (n : ℕ) → (d : ℕ) × (t : Bytes) × (decimal n ≡ d ∷ t)
unfolding decimal print_digits
decimal-cons n = elim (Bool-cases (ltb n 10)) [
  | inl last ↦ (digit n, [], rw last)
  | inr more ↦
      let (d, t, e) = print_digits-cons n (n / 10) (digit (n % 10)) [] in (d, t, rw (more, e))
]

pub atoi-decimal : (n : ℕ) → n < 2 ^ 63 → atoi (decimal n) ≡ some (pos n)
atoi-decimal n h =
    let (d, t, e) = decimal-cons n in
    rw e (
      atoi_digits d t (subst Digits e (decimal-Digits n)).0
        (ap (digits_from 0) (sym e) ∙ digits_from-decimal n) (ground arith))
