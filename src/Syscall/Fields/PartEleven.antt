-- ===== src/Syscall/Fields/PartEleven.antt =====
-- internal/syscalls.go: the rows of SyscallFields, part eleven of thirteen.
use Prim.Native.String.{String}
use mathlib.Core.List.{List, [], ◌∷◌}

unfoldable pub syscall_fields_eleven : List (String × List String)
syscall_fields_eleven =
    ("map_shadow_stack", "unsigned long addr" ∷ "unsigned long size" ∷ "unsigned int flags" ∷ [])
    ∷ ("shmat", "int shmid" ∷ "char *shmaddr" ∷ "int shmflg" ∷ [])
    ∷ ("creat", "const char *pathname" ∷ "umode_t mode" ∷ [])
    ∷ ("geteuid", [])
    ∷ ("rt_sigpending", "sigset_t *uset" ∷ "size_t sigsetsize" ∷ [])
    ∷ ("epoll_ctl", "int epfd" ∷ "int op" ∷ "int fd" ∷ "struct epoll_event *event" ∷ [])
    ∷ ("rt_tgsigqueueinfo", "pid_t tgid" ∷ "pid_t pid" ∷ "int sig" ∷ "siginfo_t *uinfo" ∷ [])
    ∷ ("close_range", "unsigned int fd" ∷ "unsigned int max_fd" ∷ "unsigned int flags" ∷ [])
    ∷ ("pread64", "unsigned int fd" ∷ "char *buf" ∷ "size_t count" ∷ "loff_t pos" ∷ [])
    ∷ ("ptrace", "long request" ∷ "long pid" ∷ "unsigned long addr" ∷ "unsigned long data" ∷ [])
    ∷ (
      "rt_sigtimedwait",
      "const sigset_t *uthese" ∷ "siginfo_t *uinfo" ∷ "const struct __kernel_timespec *uts"
          ∷ "size_t sigsetsize" ∷ [],
    )
    ∷ ("rt_sigqueueinfo", "pid_t pid" ∷ "int sig" ∷ "siginfo_t *uinfo" ∷ [])
    ∷ ("sync", [])
    ∷ ("getxattr", "const char *pathname" ∷ "const char *name" ∷ "void *value" ∷ "size_t size" ∷ [])
    ∷ ("timer_delete", "timer_t timer_id" ∷ [])
    ∷ (
      "sendto",
      "int fd" ∷ "void *buff" ∷ "size_t len" ∷ "unsigned int flags" ∷ "struct sockaddr *addr"
          ∷ "int addr_len" ∷ [],
    )
    ∷ ("mkdir", "const char *pathname" ∷ "umode_t mode" ∷ [])
    ∷ ("getresgid", "gid_t *rgidp" ∷ "gid_t *egidp" ∷ "gid_t *sgidp" ∷ [])
    ∷ ("statfs", "const char *pathname" ∷ "struct statfs *buf" ∷ [])
    ∷ ("adjtimex", "struct __kernel_timex *txc_p" ∷ [])
    ∷ (
      "mq_timedsend",
      "mqd_t mqdes" ∷ "const char *u_msg_ptr" ∷ "size_t msg_len" ∷ "unsigned int msg_prio"
          ∷ "const struct __kernel_timespec *u_abs_timeout" ∷ [],
    )
    ∷ ("inotify_init", [])
    ∷ ("close", "unsigned int fd" ∷ [])
    ∷ ("swapoff", "const char *specialfile" ∷ [])
    ∷ (
      "lgetxattr",
      "const char *pathname" ∷ "const char *name" ∷ "void *value" ∷ "size_t size" ∷ [],
    )
    ∷ (
      "timer_create",
      "const clockid_t which_clock" ∷ "struct sigevent *timer_event_spec"
          ∷ "timer_t *created_timer_id" ∷ [],
    )
    ∷ (
      "mbind",
      "unsigned long start" ∷ "unsigned long len" ∷ "unsigned long mode"
          ∷ "const unsigned long *nmask" ∷ "unsigned long maxnode" ∷ "unsigned int flags" ∷ [],
    )
    ∷ ("ioprio_get", "int which" ∷ "int who" ∷ [])
    ∷ []
