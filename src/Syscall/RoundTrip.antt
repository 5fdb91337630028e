-- ===== src/Syscall/RoundTrip.antt =====
-- internal/syscalls.go: the name table and the reversed table are inverse to one another, and no
-- syscall has more than six declared arguments.
use syscap.Base.{
  ℕ, ◌≤◌, Bool, true, false, ◌↔◌, String, List, [], ◌∷◌, none, some, ◌≡◌, refl, arith, leb, leb→le,
  Eq, ◌==◌, nat_eq, string_eq, Bool-cases, Option-cases, ap, ◌∙◌, inl, inr, all, length, lookup,
}
use syscap.Syscall.{syscall_table, syscall_fields, reversed_syscall_table}

-- A test that every row passes holds of what a lookup gives.
pub all-lookup {ℓ κ} :
    {K : Type ℓ} {V : Type κ} ⦃e : Eq K⦄ (p : K × V → Bool) (m : List (K × V)) (k : K) {v : V}
    → all p m ≡ true
    → lookup k m ≡ some v
    → p (k, v) ≡ true
all-lookup p [] k h l = cc
all-lookup ⦃e⦄ p ((j, w) ∷ m) k h l = elim (Bool-cases (j == k)) [
  | inl same ↦ ground (arith, e.equal_iff j k)
  | inr other ↦ all-lookup p m k (ground arith) (ground arith)
]

-- The tests of one row against the other table.
abbrev reversed_has : ℕ × String → Bool
reversed_has (id, name) = elim (lookup name reversed_syscall_table) [
  | none ↦ false
  | some i ↦ i == id
]

abbrev table_has : String × ℕ → Bool
table_has (name, id) = elim (lookup id syscall_table) [ none ↦ false | some n ↦ n == name ]

abbrev at_most_six : String × List String → Bool
at_most_six (name, fields) = leb (length fields) 6

all-reversed_has : all reversed_has syscall_table ≡ true
unfolding syscall_table reversed_syscall_table
all-reversed_has = refl

all-table_has : all table_has reversed_syscall_table ≡ true
unfolding syscall_table reversed_syscall_table
all-table_has = refl

all-at_most_six : all at_most_six syscall_fields ≡ true
unfolding syscall_fields
all-at_most_six = refl

-- SyscallTable gives an id a name exactly when ReversedSyscallTable gives that name that id.
pub syscall_table-iff_reversed :
    (id : ℕ) (name : String)
    → (lookup id syscall_table ≡ some name) ↔ (lookup name reversed_syscall_table ≡ some id)
syscall_table-iff_reversed id name = (
  λ h. to_reversed (all-lookup reversed_has syscall_table id all-reversed_has h),
  λ h. to_table (all-lookup table_has reversed_syscall_table name all-table_has h),
)
  where
    to_reversed : reversed_has (id, name) ≡ true → lookup name reversed_syscall_table ≡ some id
    to_reversed h = ground arith

    to_table : table_has (name, id) ≡ true → lookup id syscall_table ≡ some name
    to_table h = elim (Option-cases (lookup id syscall_table)) [
      | inl missing ↦ cc (rw (missing, table_has) at h)
      | inr (n, found) ↦
          found ∙ ap some ((string_eq.equal_iff n name).0 (rw (found, table_has) at h))
    ]

-- No syscall has more declared arguments than the six that an event carries.
pub length-fields-le :
    (name : String) {fields : List String}
    → lookup name syscall_fields ≡ some fields
    → length fields ≤ 6
length-fields-le name h = leb→le _ 6 (all-lookup at_most_six syscall_fields name all-at_most_six h)
