-- ===== src/Args/Scan.antt =====
-- parse_arg.go: what the loops over a flag table find, whatever the table.
use syscap.Args.Decode.{scan, is_set, is_set_nonzero}
use syscap.Args.Tables.{NamedValue}
use syscap.Base.{
  ℕ, ◌+◌, ◌-◌, Bool, true, List, [], ◌∷◌, bit_and, ◌≡◌, refl, ap, ◌∙◌, arith, inl, inr, Bool-cases,
  keep, All, clear, and-le, and-clear_disjoint,
}

-- The values of some entries, added up.
abbrev pub total : List NamedValue → ℕ
total [] = 0
total (d ∷ ds) = d.value + total ds

-- A test that only passes when all bits of the entry are set.
abbrev pub Sound : (ℕ → NamedValue → Bool) → Type 0
Sound hit = (r : ℕ) (d : NamedValue) → hit r d ≡ true → bit_and r d.value ≡ d.value

-- A test that reads nothing but the bits of the entry.
abbrev pub Local : (ℕ → NamedValue → Bool) → Type 0
Local hit = (r s : ℕ) (d : NamedValue) → bit_and r d.value ≡ bit_and s d.value → hit r d ≡ hit s d

abbrev pub DisjointFrom : ℕ → List NamedValue → Type 0
DisjointFrom v = All (λ d. bit_and v d.value ≡ 0)

-- No two entries share a bit.
abbrev pub Disjoint : List NamedValue → Type 0
Disjoint [] = Unit
Disjoint (d ∷ ds) = DisjointFrom d.value ds × Disjoint ds

pub is_set-Sound : Sound is_set
unfolding is_set
is_set-Sound r d h = ground arith

pub is_set_nonzero-Sound : Sound is_set_nonzero
unfolding is_set_nonzero
is_set_nonzero-Sound r d h = ground arith

pub is_set-Local : Local is_set
unfolding is_set
is_set-Local r s d e = rw e

pub is_set_nonzero-Local : Local is_set_nonzero
unfolding is_set_nonzero
is_set_nonzero-Local r s d e = rw e

total-clear : (r v : ℕ) → bit_and r v ≡ v → v + clear r v ≡ r
unfolding clear
total-clear r v e = omega (arith, and-le r v)

-- The entries found and what is left make up the raw value.
pub total-scan :
    (hit : ℕ → NamedValue → Bool) (ds : List NamedValue) (raw : ℕ)
    → Sound hit
    → total (scan hit ds raw).0 + (scan hit ds raw).1 ≡ raw
unfolding scan
total-scan hit [] raw sound = omega arith
total-scan hit (d ∷ ds) raw sound = elim (Bool-cases (hit raw d)) [
  | inl e ↦ rw e (
      omega (
        arith,
        total-scan hit ds (clear raw d.value) sound,
        total-clear raw d.value (sound raw d e),
      ))
  | inr e ↦ rw e (total-scan hit ds raw sound)
]

pub keep-clear :
    (hit : ℕ → NamedValue → Bool) (ds : List NamedValue) (raw v : ℕ)
    → Local hit
    → DisjointFrom v ds
    → keep (hit (clear raw v)) ds ≡ keep (hit raw) ds
keep-clear hit [] raw v loc h = refl
keep-clear hit (d ∷ ds) raw v loc (apart, h) = rw (
  loc (clear raw v) raw d (and-clear_disjoint raw v d.value apart),
  keep-clear hit ds raw v loc h,
)

-- Over a table with no shared bits the order does not matter: what is found is what `raw` holds.
pub scan-keep :
    (hit : ℕ → NamedValue → Bool) (ds : List NamedValue) (raw : ℕ)
    → Local hit
    → Disjoint ds
    → (scan hit ds raw).0 ≡ keep (hit raw) ds
unfolding scan
scan-keep hit [] raw loc h = refl
scan-keep hit (d ∷ ds) raw loc (apart, h) = elim (Bool-cases (hit raw d)) [
  | inl e ↦ rw e (
      ap (◌∷◌ d)
        (scan-keep hit ds (clear raw d.value) loc h ∙ keep-clear hit ds raw d.value loc apart))
  | inr e ↦ rw e (scan-keep hit ds raw loc h)
]

pub scan_rest :
    (hit : ℕ → NamedValue → Bool) (ds : List NamedValue) (raw : ℕ)
    → Sound hit
    → Local hit
    → Disjoint ds
    → (scan hit ds raw).1 ≡ raw - total (keep (hit raw) ds)
scan_rest hit ds raw sound loc h =
    let e = total-scan hit ds raw sound in rw (← scan-keep hit ds raw loc h) (omega arith)
