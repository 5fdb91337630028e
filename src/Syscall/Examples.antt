-- ===== src/Syscall/Examples.antt =====
-- internal/syscalls.go: one syscall in the two tables.
use syscap.Base.{some, ◌≡◌, ◌↔◌, lookup, nat_eq, string_eq}
use syscap.Syscall.RoundTrip.{syscall_table-iff_reversed}
use syscap.Syscall.{syscall_table, reversed_syscall_table}

syscall_table-iff_reversed_example :
    (lookup 41 syscall_table ≡ some "socket") ↔ (lookup "socket" reversed_syscall_table ≡ some 41)
syscall_table-iff_reversed_example = syscall_table-iff_reversed 41 "socket"
