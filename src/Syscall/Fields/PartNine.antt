-- ===== src/Syscall/Fields/PartNine.antt =====
-- internal/syscalls.go: the rows of SyscallFields, part nine of thirteen.
use Prim.Native.String.{String}
use mathlib.Core.List.{List, [], ◌∷◌}

unfoldable pub syscall_fields_nine : List (String × List String)
syscall_fields_nine =
    (
      "fsetxattr",
      "int fd" ∷ "const char *name" ∷ "const void *value" ∷ "size_t size" ∷ "int flags" ∷ [],
    )
    ∷ ("flistxattr", "int fd" ∷ "char *list" ∷ "size_t size" ∷ [])
    ∷ (
      "getxattrat",
      "int dfd" ∷ "const char *pathname" ∷ "unsigned int at_flags" ∷ "const char *name"
          ∷ "struct xattr_args *uargs" ∷ "size_t usize" ∷ [],
    )
    ∷ ("open", "const char *filename" ∷ "int flags" ∷ "umode_t mode" ∷ [])
    ∷ ("rt_sigreturn", [])
    ∷ ("mincore", "unsigned long start" ∷ "size_t len" ∷ "unsigned char *vec" ∷ [])
    ∷ ("getsockopt", "int fd" ∷ "int level" ∷ "int optname" ∷ "char *optval" ∷ "int *optlen" ∷ [])
    ∷ ("shmdt", "char *shmaddr" ∷ [])
    ∷ ("setfsgid", "gid_t gid" ∷ [])
    ∷ ("lremovexattr", "const char *pathname" ∷ "const char *name" ∷ [])
    ∷ ("clock_getres", "const clockid_t which_clock" ∷ "struct __kernel_timespec *tp" ∷ [])
    ∷ ("sched_getscheduler", "pid_t pid" ∷ [])
    ∷ ("exit_group", "int error_code" ∷ [])
    ∷ ("utimes", "char *filename" ∷ "struct __kernel_old_timeval *utimes" ∷ [])
    ∷ ("inotify_rm_watch", "int fd" ∷ "__s32 wd" ∷ [])
    ∷ ("faccessat", "int dfd" ∷ "const char *filename" ∷ "int mode" ∷ [])
    ∷ (
      "pselect6",
      "int n" ∷ "fd_set *inp" ∷ "fd_set *outp" ∷ "fd_set *exp" ∷ "struct __kernel_timespec *tsp"
          ∷ "void *sig" ∷ [],
    )
    ∷ ("fanotify_init", "unsigned int flags" ∷ "unsigned int event_f_flags" ∷ [])
    ∷ (
      "cachestat",
      "unsigned int fd" ∷ "struct cachestat_range *cstat_range" ∷ "struct cachestat *cstat"
          ∷ "unsigned int flags" ∷ [],
    )
    ∷ ("sysfs", "int option" ∷ "unsigned long arg1" ∷ "unsigned long arg2" ∷ [])
    ∷ ("acct", "const char *name" ∷ [])
    ∷ (
      "io_getevents",
      "aio_context_t ctx_id" ∷ "long min_nr" ∷ "long nr" ∷ "struct io_event *events"
          ∷ "struct __kernel_timespec *timeout" ∷ [],
    )
    ∷ (
      "remap_file_pages",
      "unsigned long start" ∷ "unsigned long size" ∷ "unsigned long prot" ∷ "unsigned long pgoff"
          ∷ "unsigned long flags" ∷ [],
    )
    ∷ (
      "prlimit64",
      "pid_t pid" ∷ "unsigned int resource" ∷ "const struct rlimit64 *new_rlim"
          ∷ "struct rlimit64 *old_rlim" ∷ [],
    )
    ∷ ("quotactl_fd", "unsigned int fd" ∷ "unsigned int cmd" ∷ "qid_t id" ∷ "void *addr" ∷ [])
    ∷ ("wait4", "pid_t upid" ∷ "int *stat_addr" ∷ "int options" ∷ "struct rusage *ru" ∷ [])
    ∷ ("truncate", "const char *path" ∷ "long length" ∷ [])
    ∷ ("personality", "unsigned int personality" ∷ [])
    ∷ []
