-- ===== src/Risk/Tables.antt =====
-- risk.go: the error numbers and the sets of names behind the findings, in the source's order.
use syscap.Base.{ℕ, ◌-◌, String, List, [], ◌∷◌, ℤ, negsuc}

-- The return value -n.
abbrev errno : ℕ → ℤ
errno n = negsuc (n - 1)

abbrev pub eperm : ℤ
eperm = errno 1

abbrev pub enoent : ℤ
enoent = errno 2

abbrev pub eagain : ℤ
eagain = errno 11

abbrev pub enomem : ℤ
enomem = errno 12

abbrev pub eacces : ℤ
eacces = errno 13

abbrev pub ebusy : ℤ
ebusy = errno 16

abbrev pub eexist : ℤ
eexist = errno 17

abbrev pub enotdir : ℤ
enotdir = errno 20

abbrev pub einval : ℤ
einval = errno 22

abbrev pub enfile : ℤ
enfile = errno 23

abbrev pub emfile : ℤ
emfile = errno 24

abbrev pub enosys : ℤ
enosys = errno 38

abbrev pub enotsup : ℤ
enotsup = errno 95

abbrev pub eopnotsupp : ℤ
eopnotsupp = errno 95

abbrev pub econnrefused : ℤ
econnrefused = errno 111

abbrev pub ehostunreach : ℤ
ehostunreach = errno 113

abbrev pub ealready : ℤ
ealready = errno 114

abbrev pub einprogress : ℤ
einprogress = errno 115

abbrev pub etimedout : ℤ
etimedout = errno 110

abbrev pub enetunreach : ℤ
enetunreach = errno 101

unfoldable pub sensitive_syscalls : List String
sensitive_syscalls =
    "setns" ∷ "unshare" ∷ "mount" ∷ "umount2" ∷ "pivot_root" ∷ "move_mount" ∷ "open_tree"
    ∷ "mount_setattr" ∷ "fsmount" ∷ "fspick" ∷ "bpf" ∷ "ptrace" ∷ "process_vm_readv"
    ∷ "process_vm_writev" ∷ "init_module" ∷ "finit_module" ∷ "delete_module" ∷ "kexec_load"
    ∷ "kexec_file_load" ∷ "perf_event_open" ∷ "mknod" ∷ "mknodat" ∷ "reboot" ∷ "swapon" ∷ "swapoff"
    ∷ "capset" ∷ []

unfoldable pub sensitive_failing_syscalls : List String
sensitive_failing_syscalls =
    "mount" ∷ "umount2" ∷ "setns" ∷ "unshare" ∷ "ptrace" ∷ "process_vm_readv" ∷ "process_vm_writev"
    ∷ "bpf" ∷ "perf_event_open" ∷ "mknod" ∷ "mknodat" ∷ "init_module" ∷ "finit_module" ∷ "execve"
    ∷ "connect" ∷ "open" ∷ "openat" ∷ "chmod" ∷ "chown" ∷ "unlink" ∷ "unlinkat" ∷ "rename"
    ∷ "renameat" ∷ "renameat2" ∷ []

unfoldable pub delay_critical_syscalls : List String
delay_critical_syscalls =
    "open" ∷ "openat" ∷ "connect" ∷ "accept" ∷ "read" ∷ "write" ∷ "fsync" ∷ "fdatasync" ∷ "futex"
    ∷ "epoll_wait" ∷ "ppoll" ∷ "pselect6" ∷ "execve" ∷ "clone" ∷ "mmap" ∷ "mprotect" ∷ "mount"
    ∷ "umount2" ∷ "rename" ∷ "renameat" ∷ "unlink" ∷ "unlinkat" ∷ "bpf" ∷ "perf_event_open" ∷ []

unfoldable pub sensitive_syscalls_with_errno : List (ℤ × List String)
sensitive_syscalls_with_errno =
    (
      eperm,
      "mount" ∷ "unshare" ∷ "setns" ∷ "ptrace" ∷ "bpf" ∷ "perf_event_open" ∷ "mknod"
          ∷ "process_vm_writev" ∷ [],
    )
    ∷ (emfile, "open" ∷ "openat" ∷ "socket" ∷ [])
    ∷ (enfile, "open" ∷ "openat" ∷ "socket" ∷ [])
    ∷ (
      enoent,
      "open" ∷ "openat" ∷ "execve" ∷ "unlink" ∷ "unlinkat" ∷ "rename" ∷ "renameat" ∷ "renameat2"
          ∷ [],
    )
    ∷ (enomem, "mmap" ∷ [])
    ∷ (eagain, "clone" ∷ [])
    ∷ (econnrefused, "connect" ∷ [])
    ∷ (etimedout, "connect" ∷ [])
    ∷ (enetunreach, "connect" ∷ [])
    ∷ (ehostunreach, "connect" ∷ [])
    ∷ []
