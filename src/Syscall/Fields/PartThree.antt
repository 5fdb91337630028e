-- ===== src/Syscall/Fields/PartThree.antt =====
-- internal/syscalls.go: the rows of SyscallFields, part three of thirteen.
use Prim.Native.String.{String}
use mathlib.Core.List.{List, [], ◌∷◌}

unfoldable pub syscall_fields_three : List (String × List String)
syscall_fields_three =
    (
      "fanotify_mark",
      "int fanotify_fd" ∷ "unsigned int flags" ∷ "__u64 mask" ∷ "int dfd" ∷ "const char *pathname"
          ∷ [],
    )
    ∷ (
      "io_uring_register",
      "unsigned int fd" ∷ "unsigned int opcode" ∷ "void *arg" ∷ "unsigned int nr_args" ∷ [],
    )
    ∷ (
      "landlock_add_rule",
      "const int ruleset_fd" ∷ "const enum landlock_rule_type rule_type"
          ∷ "const void *const rule_attr" ∷ "const __u32 flags" ∷ [],
    )
    ∷ ("fgetxattr", "int fd" ∷ "const char *name" ∷ "void *value" ∷ "size_t size" ∷ [])
    ∷ ("epoll_create", "int size" ∷ [])
    ∷ (
      "mq_getsetattr",
      "mqd_t mqdes" ∷ "const struct mq_attr *u_mqstat" ∷ "struct mq_attr *u_omqstat" ∷ [],
    )
    ∷ ("fchmodat2", "int dfd" ∷ "const char *filename" ∷ "umode_t mode" ∷ "unsigned int flags" ∷ [])
    ∷ ("getrlimit", "unsigned int resource" ∷ "struct rlimit *rlim" ∷ [])
    ∷ ("arch_prctl", "int option" ∷ "unsigned long arg2" ∷ [])
    ∷ ("swapon", "const char *specialfile" ∷ "int swap_flags" ∷ [])
    ∷ ("sync_file_range", "int fd" ∷ "loff_t offset" ∷ "loff_t nbytes" ∷ "unsigned int flags" ∷ [])
    ∷ ("getcpu", "unsigned *cpup" ∷ "unsigned *nodep" ∷ "void *unused" ∷ [])
    ∷ (
      "landlock_create_ruleset",
      "const struct landlock_ruleset_attr *const attr" ∷ "const size_t size" ∷ "const __u32 flags"
          ∷ [],
    )
    ∷ (
      "set_mempolicy_home_node",
      "unsigned long start" ∷ "unsigned long len" ∷ "unsigned long home_node"
          ∷ "unsigned long flags" ∷ [],
    )
    ∷ ("setfsuid", "uid_t uid" ∷ [])
    ∷ (
      "futex_requeue",
      "struct futex_waitv *waiters" ∷ "unsigned int flags" ∷ "int nr_wake" ∷ "int nr_requeue" ∷ [],
    )
    ∷ ("getcwd", "char *buf" ∷ "unsigned long size" ∷ [])
    ∷ ("fstatfs", "unsigned int fd" ∷ "struct statfs *buf" ∷ [])
    ∷ ("sched_setparam", "pid_t pid" ∷ "struct sched_param *param" ∷ [])
    ∷ ("init_module", "void *umod" ∷ "unsigned long len" ∷ "const char *uargs" ∷ [])
    ∷ ("tkill", "pid_t pid" ∷ "int sig" ∷ [])
    ∷ ("sched_getaffinity", "pid_t pid" ∷ "unsigned int len" ∷ "unsigned long *user_mask_ptr" ∷ [])
    ∷ ("seccomp", "unsigned int op" ∷ "unsigned int flags" ∷ "void *uargs" ∷ [])
    ∷ ("madvise", "unsigned long start" ∷ "size_t len_in" ∷ "int behavior" ∷ [])
    ∷ ("clock_settime", "const clockid_t which_clock" ∷ "const struct __kernel_timespec *tp" ∷ [])
    ∷ (
      "epoll_pwait2",
      "int epfd" ∷ "struct epoll_event *events" ∷ "int maxevents"
          ∷ "const struct __kernel_timespec *timeout" ∷ "const sigset_t *sigmask"
          ∷ "size_t sigsetsize" ∷ [],
    )
    ∷ ("semctl", "int semid" ∷ "int semnum" ∷ "int cmd" ∷ "unsigned long arg" ∷ [])
    ∷ ("setsid", [])
    ∷ []
