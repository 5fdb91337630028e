-- ===== src/Syscall/Fields/PartOne.antt =====
-- internal/syscalls.go: the rows of SyscallFields, part one of thirteen.
use Prim.Native.String.{String}
use mathlib.Core.List.{List, [], ◌∷◌}

unfoldable pub syscall_fields_one : List (String × List String)
syscall_fields_one =
    ("sched_get_priority_min", "int policy" ∷ [])
    ∷ ("signalfd", "int ufd" ∷ "sigset_t *user_mask" ∷ "size_t sizemask" ∷ [])
    ∷ (
      "timerfd_settime",
      "int ufd" ∷ "int flags" ∷ "const struct __kernel_itimerspec *utmr"
          ∷ "struct __kernel_itimerspec *otmr" ∷ [],
    )
    ∷ ("sethostname", "char *name" ∷ "int len" ∷ [])
    ∷ (
      "mq_open",
      "const char *u_name" ∷ "int oflag" ∷ "umode_t mode" ∷ "struct mq_attr *u_attr" ∷ [],
    )
    ∷ (
      "mq_timedreceive",
      "mqd_t mqdes" ∷ "char *u_msg_ptr" ∷ "size_t msg_len" ∷ "unsigned int *u_msg_prio"
          ∷ "const struct __kernel_timespec *u_abs_timeout" ∷ [],
    )
    ∷ (
      "accept4",
      "int fd" ∷ "struct sockaddr *upeer_sockaddr" ∷ "int *upeer_addrlen" ∷ "int flags" ∷ [],
    )
    ∷ ("pipe2", "int *fildes" ∷ "int flags" ∷ [])
    ∷ ("getrandom", "char *ubuf" ∷ "size_t len" ∷ "unsigned int flags" ∷ [])
    ∷ ("umask", "int mask" ∷ [])
    ∷ ("setpgid", "pid_t pid" ∷ "pid_t pgid" ∷ [])
    ∷ (
      "futex",
      "u32 *uaddr" ∷ "int op" ∷ "u32 val" ∷ "const struct __kernel_timespec *utime" ∷ "u32 *uaddr2"
          ∷ "u32 val3" ∷ [],
    )
    ∷ ("tgkill", "pid_t tgid" ∷ "pid_t pid" ∷ "int sig" ∷ [])
    ∷ ("set_mempolicy", "int mode" ∷ "const unsigned long *nmask" ∷ "unsigned long maxnode" ∷ [])
    ∷ (
      "get_robust_list",
      "int pid" ∷ "struct robust_list_head * *head_ptr" ∷ "size_t *len_ptr" ∷ [],
    )
    ∷ ("pwrite64", "unsigned int fd" ∷ "const char *buf" ∷ "size_t count" ∷ "loff_t pos" ∷ [])
    ∷ ("msgget", "key_t key" ∷ "int msgflg" ∷ [])
    ∷ ("getgroups", "int gidsetsize" ∷ "gid_t *grouplist" ∷ [])
    ∷ ("mlock", "unsigned long start" ∷ "size_t len" ∷ [])
    ∷ ("vhangup", [])
    ∷ ("clock_gettime", "const clockid_t which_clock" ∷ "struct __kernel_timespec *tp" ∷ [])
    ∷ ("timerfd_gettime", "int ufd" ∷ "struct __kernel_itimerspec *otmr" ∷ [])
    ∷ ("sendmsg", "int fd" ∷ "struct user_msghdr *msg" ∷ "unsigned int flags" ∷ [])
    ∷ ("readlink", "const char *path" ∷ "char *buf" ∷ "int bufsiz" ∷ [])
    ∷ (
      "kexec_load",
      "unsigned long entry" ∷ "unsigned long nr_segments" ∷ "struct kexec_segment *segments"
          ∷ "unsigned long flags" ∷ [],
    )
    ∷ ("tee", "int fdin" ∷ "int fdout" ∷ "size_t len" ∷ "unsigned int flags" ∷ [])
    ∷ ("inotify_init1", "int flags" ∷ [])
    ∷ ("userfaultfd", "int flags" ∷ [])
    ∷ []
