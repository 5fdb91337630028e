-- ===== src/Risk/Names.antt =====
-- risk.go: which syscall's information a finding reads.
use syscap.Base.{
  ℕ, String, none, some, ◌≡◌, refl, lookup, lookup_or, lookup-lookup_or, ap, nat_eq, string_eq,
}
use syscap.Monitor.Records.{no_info, OverallInfo, syscall_name_of}
use syscap.Risk.Collect.{get_info_from_syscall_name}
use syscap.Syscall.RoundTrip.{syscall_table-iff_reversed}
use syscap.Syscall.{syscall_table, reversed_syscall_table}

syscall_name_of_known :
    (id : ℕ) {name : String} → lookup id syscall_table ≡ some name → syscall_name_of id ≡ name
unfolding syscall_name_of
syscall_name_of_known id known = lookup-lookup_or "" id syscall_table known

-- For an id with a name, the findings under this name read the information of this id.
pub get_info-known :
    (overall : OverallInfo) (id : ℕ) {name : String}
    → lookup id syscall_table ≡ some name
    → get_info_from_syscall_name overall (syscall_name_of id) ≡ lookup_or no_info id overall
unfolding get_info_from_syscall_name
get_info-known overall id {name} known = rw (syscall_name_of_known id known) (
    ap (λ i. lookup_or no_info i overall)
      (lookup-lookup_or 0 name reversed_syscall_table
        ((syscall_table-iff_reversed id name).0 known)))

syscall_name_of_unknown : (id : ℕ) → lookup id syscall_table ≡ none → syscall_name_of id ≡ ""
unfolding syscall_name_of
syscall_name_of_unknown id unknown = rw (unknown, lookup_or)

-- For an id without a name, the findings read the information of id 0, the syscall `read`.
pub get_info-unknown :
    (overall : OverallInfo) (id : ℕ)
    → lookup id syscall_table ≡ none
    → get_info_from_syscall_name overall (syscall_name_of id) ≡ lookup_or no_info 0 overall
unfolding get_info_from_syscall_name
get_info-unknown overall id unknown = rw (syscall_name_of_unknown id unknown) refl
