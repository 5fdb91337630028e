-- ===== src/Syscall/Fields/PartFive.antt =====
-- internal/syscalls.go: the rows of SyscallFields, part five of thirteen.
use Prim.Native.String.{String}
use mathlib.Core.List.{List, [], ◌∷◌}

unfoldable pub syscall_fields_five : List (String × List String)
syscall_fields_five =
    ("pivot_root", "const char *new_root" ∷ "const char *put_old" ∷ [])
    ∷ ("sched_setattr", "pid_t pid" ∷ "struct sched_attr *uattr" ∷ "unsigned int flags" ∷ [])
    ∷ ("shmctl", "int shmid" ∷ "int cmd" ∷ "struct shmid_ds *buf" ∷ [])
    ∷ ("sysinfo", "struct sysinfo *info" ∷ [])
    ∷ ("rt_sigsuspend", "sigset_t *unewset" ∷ "size_t sigsetsize" ∷ [])
    ∷ ("inotify_add_watch", "int fd" ∷ "const char *pathname" ∷ "u32 mask" ∷ [])
    ∷ ("pidfd_send_signal", "int pidfd" ∷ "int sig" ∷ "siginfo_t *info" ∷ "unsigned int flags" ∷ [])
    ∷ ("setpriority", "int which" ∷ "int who" ∷ "int niceval" ∷ [])
    ∷ ("restart_syscall", [])
    ∷ (
      "timer_settime",
      "timer_t timer_id" ∷ "int flags" ∷ "const struct __kernel_itimerspec *new_setting"
          ∷ "struct __kernel_itimerspec *old_setting" ∷ [],
    )
    ∷ ("set_robust_list", "struct robust_list_head *head" ∷ "size_t len" ∷ [])
    ∷ (
      "epoll_pwait",
      "int epfd" ∷ "struct epoll_event *events" ∷ "int maxevents" ∷ "int timeout"
          ∷ "const sigset_t *sigmask" ∷ "size_t sigsetsize" ∷ [],
    )
    ∷ ("pkey_free", "int pkey" ∷ [])
    ∷ (
      "lsetxattr",
      "const char *pathname" ∷ "const char *name" ∷ "const void *value" ∷ "size_t size"
          ∷ "int flags" ∷ [],
    )
    ∷ ("futimesat", "int dfd" ∷ "const char *filename" ∷ "struct __kernel_old_timeval *utimes" ∷ [])
    ∷ ("access", "const char *filename" ∷ "int mode" ∷ [])
    ∷ ("socketpair", "int family" ∷ "int type" ∷ "int protocol" ∷ "int *usockvec" ∷ [])
    ∷ ("settimeofday", "struct __kernel_old_timeval *tv" ∷ "struct timezone *tz" ∷ [])
    ∷ (
      "recvmmsg",
      "int fd" ∷ "struct mmsghdr *mmsg" ∷ "unsigned int vlen" ∷ "unsigned int flags"
          ∷ "struct __kernel_timespec *timeout" ∷ [],
    )
    ∷ ("syncfs", "int fd" ∷ [])
    ∷ (
      "renameat2",
      "int olddfd" ∷ "const char *oldname" ∷ "int newdfd" ∷ "const char *newname"
          ∷ "unsigned int flags" ∷ [],
    )
    ∷ ("mq_unlink", "const char *u_name" ∷ [])
    ∷ (
      "fchownat",
      "int dfd" ∷ "const char *filename" ∷ "uid_t user" ∷ "gid_t group" ∷ "int flag" ∷ [],
    )
    ∷ ("fchmodat", "int dfd" ∷ "const char *filename" ∷ "umode_t mode" ∷ [])
    ∷ ("landlock_restrict_self", "const int ruleset_fd" ∷ "const __u32 flags" ∷ [])
    ∷ (
      "lsm_get_self_attr",
      "unsigned int attr" ∷ "struct lsm_ctx *ctx" ∷ "u32 *size" ∷ "u32 flags" ∷ [],
    )
    ∷ ("writev", "unsigned long fd" ∷ "const struct iovec *vec" ∷ "unsigned long vlen" ∷ [])
    ∷ ("fcntl", "unsigned int fd" ∷ "unsigned int cmd" ∷ "unsigned long arg" ∷ [])
    ∷ []
