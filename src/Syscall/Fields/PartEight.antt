-- ===== src/Syscall/Fields/PartEight.antt =====
-- internal/syscalls.go: the rows of SyscallFields, part eight of thirteen.
use Prim.Native.String.{String}
use mathlib.Core.List.{List, [], ◌∷◌}

unfoldable pub syscall_fields_eight : List (String × List String)
syscall_fields_eight =
    ("setgid", "gid_t gid" ∷ [])
    ∷ ("gettid", [])
    ∷ (
      "setxattr",
      "const char *pathname" ∷ "const char *name" ∷ "const void *value" ∷ "size_t size"
          ∷ "int flags" ∷ [],
    )
    ∷ (
      "ppoll",
      "struct pollfd *ufds" ∷ "unsigned int nfds" ∷ "struct __kernel_timespec *tsp"
          ∷ "const sigset_t *sigmask" ∷ "size_t sigsetsize" ∷ [],
    )
    ∷ (
      "statx",
      "int dfd" ∷ "const char *filename" ∷ "unsigned flags" ∷ "unsigned int mask"
          ∷ "struct statx *buffer" ∷ [],
    )
    ∷ (
      "listmount",
      "const struct mnt_id_req *req" ∷ "u64 *mnt_ids" ∷ "size_t nr_mnt_ids" ∷ "unsigned int flags"
          ∷ [],
    )
    ∷ (
      "file_getattr",
      "int dfd" ∷ "const char *filename" ∷ "struct file_attr *ufattr" ∷ "size_t usize"
          ∷ "unsigned int at_flags" ∷ [],
    )
    ∷ ("write", "unsigned int fd" ∷ "const char *buf" ∷ "size_t count" ∷ [])
    ∷ ("getitimer", "int which" ∷ "struct __kernel_old_itimerval *value" ∷ [])
    ∷ (
      "clone",
      "unsigned long clone_flags" ∷ "unsigned long newsp" ∷ "int *parent_tidptr"
          ∷ "int *child_tidptr" ∷ "unsigned long tls" ∷ [],
    )
    ∷ ("link", "const char *oldname" ∷ "const char *newname" ∷ [])
    ∷ ("unshare", "unsigned long unshare_flags" ∷ [])
    ∷ (
      "utimensat",
      "int dfd" ∷ "const char *filename" ∷ "struct __kernel_timespec *utimes" ∷ "int flags" ∷ [],
    )
    ∷ ("pkey_alloc", "unsigned long flags" ∷ "unsigned long init_val" ∷ [])
    ∷ ("getpid", [])
    ∷ (
      "linkat",
      "int olddfd" ∷ "const char *oldname" ∷ "int newdfd" ∷ "const char *newname" ∷ "int flags"
          ∷ [],
    )
    ∷ ("pidfd_open", "pid_t pid" ∷ "unsigned int flags" ∷ [])
    ∷ ("process_mrelease", "int pidfd" ∷ "unsigned int flags" ∷ [])
    ∷ ("lsm_list_modules", "u64 *ids" ∷ "u32 *size" ∷ "u32 flags" ∷ [])
    ∷ ("readv", "unsigned long fd" ∷ "const struct iovec *vec" ∷ "unsigned long vlen" ∷ [])
    ∷ ("alarm", "unsigned int seconds" ∷ [])
    ∷ ("socket", "int family" ∷ "int type" ∷ "int protocol" ∷ [])
    ∷ ("times", "struct tms *tbuf" ∷ [])
    ∷ (
      "get_mempolicy",
      "int *policy" ∷ "unsigned long *nmask" ∷ "unsigned long maxnode" ∷ "unsigned long addr"
          ∷ "unsigned long flags" ∷ [],
    )
    ∷ ("futex_wake", "void *uaddr" ∷ "unsigned long mask" ∷ "int nr" ∷ "unsigned int flags" ∷ [])
    ∷ ("recvmsg", "int fd" ∷ "struct user_msghdr *msg" ∷ "unsigned int flags" ∷ [])
    ∷ ("fdatasync", "unsigned int fd" ∷ [])
    ∷ ("setregid", "gid_t rgid" ∷ "gid_t egid" ∷ [])
    ∷ []
