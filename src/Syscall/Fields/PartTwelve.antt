-- ===== src/Syscall/Fields/PartTwelve.antt =====
-- internal/syscalls.go: the rows of SyscallFields, part twelve of thirteen.
use Prim.Native.String.{String}
use mathlib.Core.List.{List, [], ◌∷◌}

unfoldable pub syscall_fields_twelve : List (String × List String)
syscall_fields_twelve =
    (
      "vmsplice",
      "int fd" ∷ "const struct iovec *uiov" ∷ "unsigned long nr_segs" ∷ "unsigned int flags" ∷ [],
    )
    ∷ ("lseek", "unsigned int fd" ∷ "off_t offset" ∷ "unsigned int whence" ∷ [])
    ∷ (
      "mmap",
      "unsigned long addr" ∷ "unsigned long len" ∷ "unsigned long prot" ∷ "unsigned long flags"
          ∷ "unsigned long fd" ∷ "unsigned long off" ∷ [],
    )
    ∷ ("getsid", "pid_t pid" ∷ [])
    ∷ ("mknod", "const char *filename" ∷ "umode_t mode" ∷ "unsigned dev" ∷ [])
    ∷ (
      "migrate_pages",
      "pid_t pid" ∷ "unsigned long maxnode" ∷ "const unsigned long *old_nodes"
          ∷ "const unsigned long *new_nodes" ∷ [],
    )
    ∷ ("shutdown", "int fd" ∷ "int how" ∷ [])
    ∷ ("readlinkat", "int dfd" ∷ "const char *pathname" ∷ "char *buf" ∷ "int bufsiz" ∷ [])
    ∷ (
      "execveat",
      "int fd" ∷ "const char *filename" ∷ "const char *const *argv" ∷ "const char *const *envp"
          ∷ "int flags" ∷ [],
    )
    ∷ ("uprobe", [])
    ∷ (
      "move_mount",
      "int from_dfd" ∷ "const char *from_pathname" ∷ "int to_dfd" ∷ "const char *to_pathname"
          ∷ "unsigned int flags" ∷ [],
    )
    ∷ ("fsmount", "int fs_fd" ∷ "unsigned int flags" ∷ "unsigned int attr_flags" ∷ [])
    ∷ (
      "setxattrat",
      "int dfd" ∷ "const char *pathname" ∷ "unsigned int at_flags" ∷ "const char *name"
          ∷ "const struct xattr_args *uargs" ∷ "size_t usize" ∷ [],
    )
    ∷ ("eventfd", "unsigned int count" ∷ [])
    ∷ ("memfd_create", "const char *uname" ∷ "unsigned int flags" ∷ [])
    ∷ ("bind", "int fd" ∷ "struct sockaddr *umyaddr" ∷ "int addrlen" ∷ [])
    ∷ ("vfork", [])
    ∷ (
      "mount",
      "char *dev_name" ∷ "char *dir_name" ∷ "char *type" ∷ "unsigned long flags" ∷ "void *data"
          ∷ [],
    )
    ∷ (
      "perf_event_open",
      "struct perf_event_attr *attr_uptr" ∷ "pid_t pid" ∷ "int cpu" ∷ "int group_fd"
          ∷ "unsigned long flags" ∷ [],
    )
    ∷ ("finit_module", "int fd" ∷ "const char *uargs" ∷ "int flags" ∷ [])
    ∷ ("mlock2", "unsigned long start" ∷ "size_t len" ∷ "int flags" ∷ [])
    ∷ (
      "futex_waitv",
      "struct futex_waitv *waiters" ∷ "unsigned int nr_futexes" ∷ "unsigned int flags"
          ∷ "struct __kernel_timespec *timeout" ∷ "clockid_t clockid" ∷ [],
    )
    ∷ ("read", "unsigned int fd" ∷ "char *buf" ∷ "size_t count" ∷ [])
    ∷ ("getgid", [])
    ∷ ("unlinkat", "int dfd" ∷ "const char *pathname" ∷ "int flag" ∷ [])
    ∷ (
      "process_vm_writev",
      "pid_t pid" ∷ "const struct iovec *lvec" ∷ "unsigned long liovcnt"
          ∷ "const struct iovec *rvec" ∷ "unsigned long riovcnt" ∷ "unsigned long flags" ∷ [],
    )
    ∷ (
      "sched_getattr",
      "pid_t pid" ∷ "struct sched_attr *uattr" ∷ "unsigned int usize" ∷ "unsigned int flags" ∷ [],
    )
    ∷ ("fork", [])
    ∷ []
