-- ===== src/Syscall/Fields/PartThirteen.antt =====
-- internal/syscalls.go: the rows of SyscallFields, part thirteen of thirteen.
use Prim.Native.String.{String}
use mathlib.Core.List.{List, [], ◌∷◌}

unfoldable pub syscall_fields_thirteen : List (String × List String)
syscall_fields_thirteen =
    ("symlink", "const char *oldname" ∷ "const char *newname" ∷ [])
    ∷ ("mlockall", "int flags" ∷ [])
    ∷ ("setdomainname", "char *name" ∷ "int len" ∷ [])
    ∷ (
      "semtimedop",
      "int semid" ∷ "struct sembuf *tsops" ∷ "unsigned int nsops"
          ∷ "const struct __kernel_timespec *timeout" ∷ [],
    )
    ∷ ("renameat", "int olddfd" ∷ "const char *oldname" ∷ "int newdfd" ∷ "const char *newname" ∷ [])
    ∷ ("epoll_create1", "int flags" ∷ [])
    ∷ (
      "kcmp",
      "pid_t pid1" ∷ "pid_t pid2" ∷ "int type" ∷ "unsigned long idx1" ∷ "unsigned long idx2" ∷ [],
    )
    ∷ ("setresgid", "gid_t rgid" ∷ "gid_t egid" ∷ "gid_t sgid" ∷ [])
    ∷ ("timerfd_create", "int clockid" ∷ "int flags" ∷ [])
    ∷ ("bpf", "int cmd" ∷ "union bpf_attr *uattr" ∷ "unsigned int size" ∷ [])
    ∷ (
      "pkey_mprotect",
      "unsigned long start" ∷ "size_t len" ∷ "unsigned long prot" ∷ "int pkey" ∷ [],
    )
    ∷ ("openat2", "int dfd" ∷ "const char *filename" ∷ "struct open_how *how" ∷ "size_t usize" ∷ [])
    ∷ ("memfd_secret", "unsigned int flags" ∷ [])
    ∷ (
      "statmount",
      "const struct mnt_id_req *req" ∷ "struct statmount *buf" ∷ "size_t bufsize"
          ∷ "unsigned int flags" ∷ [],
    )
    ∷ ("listen", "int fd" ∷ "int backlog" ∷ [])
    ∷ ("fsync", "unsigned int fd" ∷ [])
    ∷ ("llistxattr", "const char *pathname" ∷ "char *list" ∷ "size_t size" ∷ [])
    ∷ ("openat", "int dfd" ∷ "const char *filename" ∷ "int flags" ∷ "umode_t mode" ∷ [])
    ∷ ("fspick", "int dfd" ∷ "const char *path" ∷ "unsigned int flags" ∷ [])
    ∷ (
      "listns",
      "const struct ns_id_req *req" ∷ "u64 *ns_ids" ∷ "size_t nr_ns_ids" ∷ "unsigned int flags"
          ∷ [],
    )
    ∷ ("getpeername", "int fd" ∷ "struct sockaddr *usockaddr" ∷ "int *usockaddr_len" ∷ [])
    ∷ ("exit", "int error_code" ∷ [])
    ∷ ("flock", "unsigned int fd" ∷ "unsigned int cmd" ∷ [])
    ∷ ("rename", "const char *oldname" ∷ "const char *newname" ∷ [])
    ∷ ("capset", "cap_user_header_t header" ∷ "const cap_user_data_t data" ∷ [])
    ∷ []
