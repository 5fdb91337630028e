-- ===== src/Startup/Flags/Tokens.antt =====
-- main.go: how an argument is written that parseArgs reads as a flag or as `--`.
use syscap.Base.{
  ℕ, Bool, true, false, [], ◌∷◌, ◌++◌, Option, none, some, if◌then◌else◌, eqb, not, eqb_iff,
  bytes_eq_iff, ◌||◌, ◌==◌, bytes_has_eq, ◌≡◌, refl, sym, ap, subst, ◌∙◌, inl, inr, Bool-cases,
  Bytes, codes,
}
use syscap.Startup.Flags.Laws.{flag_text}
use syscap.Startup.Flags.{
  Token, plain, terminator, wrong, flag, cut_value, named_flag, after_dashes, after_dash, token_of,
}

-- A name and the value behind `=`, as one argument.
abbrev pub with_value : Bytes → Option Bytes → Bytes
with_value name none = name
with_value name (some value) = name ++ (codes "=" ++ value)

with_value-cons :
    (c : ℕ) (name : Bytes) (value : Option Bytes)
    → with_value (c ∷ name) value ≡ c ∷ with_value name value
with_value-cons c name none = refl
with_value-cons c name (some value) = refl

cut_value-with_value : (s : Bytes) → with_value (cut_value s).0 (cut_value s).1 ≡ s
unfolding cut_value
cut_value-with_value [] = refl
cut_value-with_value (c ∷ s) = elim (Bool-cases (eqb c b'=')) [
  | inl here ↦ rw here (ap (λ d. d ∷ s) (sym ((eqb_iff c b'=').0 here)))
  | inr later ↦
      rw later (
        with_value-cons c (cut_value s).0 (cut_value s).1
        ∙ ap (λ t. c ∷ t) (cut_value-with_value s))
]

-- A name with its value, where the token is a flag.
abbrev IsNamed : Bytes → Option Bytes → Token → Type 0
IsNamed name value (flag f v) = (name ≡ flag_text f) × (value ≡ v)
IsNamed name value plain = Unit {0}
IsNamed name value terminator = ⊥
IsNamed name value (wrong e) = Unit {0}

named_flag-IsNamed :
    (name : Bytes) (value : Option Bytes) → IsNamed name value (named_flag name value)
unfolding named_flag
named_flag-IsNamed name value = elim (Bool-cases (name == codes "container-id")) [
  | inl first ↦ rw first ((bytes_eq_iff name (codes "container-id")).0 first, refl)
  | inr no_first ↦ elim (Bool-cases (name == codes "target-syscall")) [
    | inl second ↦
        rw (no_first, second) ((bytes_eq_iff name (codes "target-syscall")).0 second, refl)
    | inr no_second ↦ elim (Bool-cases (name == codes "help" || name == codes "h")) [
      | inl help ↦ rw (no_first, no_second, help) tt
      | inr unknown ↦ rw (no_first, no_second, unknown) tt
    ]
  ]
]

-- What is spelled behind the dashes.
abbrev IsSpelled : Bytes → Token → Type 0
IsSpelled s (flag f v) = s ≡ with_value (flag_text f) v
IsSpelled s plain = Unit {0}
IsSpelled s terminator = ⊥
IsSpelled s (wrong e) = Unit {0}

named-IsSpelled :
    (s name : Bytes) (value : Option Bytes) (t : Token)
    → with_value name value ≡ s
    → IsNamed name value t
    → IsSpelled s t
named-IsSpelled s name value (flag f v) whole (same, here) =
    sym whole ∙ (λ i. with_value (same i) (here i))
named-IsSpelled s name value plain whole h = tt
named-IsSpelled s name value terminator whole h = h
named-IsSpelled s name value (wrong e) whole h = tt

after_dashes-IsSpelled : (s : Bytes) → IsSpelled s (after_dashes s)
unfolding after_dashes
after_dashes-IsSpelled [] = tt
after_dashes-IsSpelled (c ∷ s) = elim (Bool-cases (eqb c b'-' || eqb c b'=')) [
  | inl bad ↦ rw bad tt
  | inr good ↦
      let (name, value) = cut_value (c ∷ s) in
      rw good (
        named-IsSpelled (c ∷ s) name value (named_flag name value) (cut_value-with_value (c ∷ s))
          (named_flag-IsNamed name value))
]

abbrev pub dashes : Bool → Bytes
dashes two = if two then codes "--" else codes "-"

-- How an argument is written, where it is a flag or ends the flags.
abbrev pub IsWritten : Bytes → Token → Type 0
IsWritten s (flag f v) = (two : Bool) × (s ≡ dashes two ++ with_value (flag_text f) v)
IsWritten s plain = Unit {0}
IsWritten s terminator = s ≡ codes "--"
IsWritten s (wrong e) = Unit {0}

spelled-IsWritten :
    (two : Bool) (s : Bytes) (t : Token) → IsSpelled s t → IsWritten (dashes two ++ s) t
spelled-IsWritten two s (flag f v) h = (two, ap (λ r. dashes two ++ r) h)
spelled-IsWritten two s plain h = tt
spelled-IsWritten two s terminator h = elim h [ ]
spelled-IsWritten two s (wrong e) h = tt

after_dash-IsWritten : (s : Bytes) → IsWritten (codes "-" ++ s) (after_dash s)
unfolding after_dash
after_dash-IsWritten [] = tt
after_dash-IsWritten (c ∷ s) = elim (Bool-cases (eqb c b'-')) [
  | inl dash ↦ elim (Bool-cases (s == [])) [
    | inl last ↦ rw (dash, last) (rw ((eqb_iff c b'-').0 dash, (bytes_eq_iff s []).0 last) refl)
    | inr more ↦
        rw (dash, more)
          (rw ((eqb_iff c b'-').0 dash)
            (spelled-IsWritten true s (after_dashes s) (after_dashes-IsSpelled s)))
  ]
  | inr other ↦
      subst (IsWritten (codes "-" ++ (c ∷ s)))
        (sym (
          ap
            (λ (b : Bool).
              if not b
              then after_dashes (c ∷ s)
              else if s == []
              then terminator
              else after_dashes s)
            other))
        (spelled-IsWritten false (c ∷ s) (after_dashes (c ∷ s)) (after_dashes-IsSpelled (c ∷ s)))
]

pub token_of-IsWritten : (s : Bytes) → IsWritten s (token_of s)
unfolding token_of
token_of-IsWritten [] = tt
token_of-IsWritten (c ∷ s) = elim (Bool-cases (eqb c b'-')) [
  | inl dash ↦ rw dash (rw ((eqb_iff c b'-').0 dash) (after_dash-IsWritten s))
  | inr other ↦ rw other tt
]
