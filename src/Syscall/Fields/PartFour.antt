-- ===== src/Syscall/Fields/PartFour.antt =====
-- internal/syscalls.go: the rows of SyscallFields, part four of thirteen.
use Prim.Native.String.{String}
use mathlib.Core.List.{List, [], ◌∷◌}

unfoldable pub syscall_fields_four : List (String × List String)
syscall_fields_four =
    ("setgroups", "int gidsetsize" ∷ "gid_t *grouplist" ∷ [])
    ∷ ("sigaltstack", "const stack_t *uss" ∷ "stack_t *uoss" ∷ [])
    ∷ ("sched_get_priority_max", "int policy" ∷ [])
    ∷ ("ioperm", "unsigned long from" ∷ "unsigned long num" ∷ "int turn_on" ∷ [])
    ∷ ("fremovexattr", "int fd" ∷ "const char *name" ∷ [])
    ∷ ("sched_yield", [])
    ∷ ("modify_ldt", "int func" ∷ "void *ptr" ∷ "unsigned long bytecount" ∷ [])
    ∷ ("iopl", "unsigned int level" ∷ [])
    ∷ (
      "waitid",
      "int which" ∷ "pid_t upid" ∷ "struct siginfo *infop" ∷ "int options" ∷ "struct rusage *ru"
          ∷ [],
    )
    ∷ ("ioprio_set", "int which" ∷ "int who" ∷ "int ioprio" ∷ [])
    ∷ (
      "splice",
      "int fd_in" ∷ "loff_t *off_in" ∷ "int fd_out" ∷ "loff_t *off_out" ∷ "size_t len"
          ∷ "unsigned int flags" ∷ [],
    )
    ∷ ("signalfd4", "int ufd" ∷ "sigset_t *user_mask" ∷ "size_t sizemask" ∷ "int flags" ∷ [])
    ∷ ("pidfd_getfd", "int pidfd" ∷ "int fd" ∷ "unsigned int flags" ∷ [])
    ∷ (
      "select",
      "int n" ∷ "fd_set *inp" ∷ "fd_set *outp" ∷ "fd_set *exp" ∷ "struct __kernel_old_timeval *tvp"
          ∷ [],
    )
    ∷ ("dup2", "unsigned int oldfd" ∷ "unsigned int newfd" ∷ [])
    ∷ ("semop", "int semid" ∷ "struct sembuf *tsops" ∷ "unsigned nsops" ∷ [])
    ∷ ("readahead", "int fd" ∷ "loff_t offset" ∷ "size_t count" ∷ [])
    ∷ (
      "epoll_wait",
      "int epfd" ∷ "struct epoll_event *events" ∷ "int maxevents" ∷ "int timeout" ∷ [],
    )
    ∷ (
      "futex_wait",
      "void *uaddr" ∷ "unsigned long val" ∷ "unsigned long mask" ∷ "unsigned int flags"
          ∷ "struct __kernel_timespec *timeout" ∷ "clockid_t clockid" ∷ [],
    )
    ∷ (
      "mremap",
      "unsigned long addr" ∷ "unsigned long old_len" ∷ "unsigned long new_len"
          ∷ "unsigned long flags" ∷ "unsigned long new_addr" ∷ [],
    )
    ∷ ("msync", "unsigned long start" ∷ "size_t len" ∷ "int flags" ∷ [])
    ∷ ("connect", "int fd" ∷ "struct sockaddr *uservaddr" ∷ "int addrlen" ∷ [])
    ∷ ("sched_rr_get_interval", "pid_t pid" ∷ "struct __kernel_timespec *interval" ∷ [])
    ∷ ("setrlimit", "unsigned int resource" ∷ "struct rlimit *rlim" ∷ [])
    ∷ (
      "preadv2",
      "unsigned long fd" ∷ "const struct iovec *vec" ∷ "unsigned long vlen" ∷ "unsigned long pos_l"
          ∷ "unsigned long pos_h" ∷ "rwf_t flags" ∷ [],
    )
    ∷ ("mseal", "unsigned long start" ∷ "size_t len" ∷ "unsigned long flags" ∷ [])
    ∷ ("msgsnd", "int msqid" ∷ "struct msgbuf *msgp" ∷ "size_t msgsz" ∷ "int msgflg" ∷ [])
    ∷ ("fchown", "unsigned int fd" ∷ "uid_t user" ∷ "gid_t group" ∷ [])
    ∷ []
