-- ===== src/Syscall/Fields/PartTwo.antt =====
-- internal/syscalls.go: the rows of SyscallFields, part two of thirteen.
use Prim.Native.String.{String}
use mathlib.Core.List.{List, [], ◌∷◌}

unfoldable pub syscall_fields_two : List (String × List String)
syscall_fields_two =
    ("faccessat2", "int dfd" ∷ "const char *filename" ∷ "int mode" ∷ "int flags" ∷ [])
    ∷ ("mprotect", "unsigned long start" ∷ "size_t len" ∷ "unsigned long prot" ∷ [])
    ∷ ("io_destroy", "aio_context_t ctx" ∷ [])
    ∷ ("set_tid_address", "int *tidptr" ∷ [])
    ∷ (
      "name_to_handle_at",
      "int dfd" ∷ "const char *name" ∷ "struct file_handle *handle" ∷ "void *mnt_id" ∷ "int flag"
          ∷ [],
    )
    ∷ ("fsconfig", "int fd" ∷ "unsigned int cmd" ∷ "int aux" ∷ [])
    ∷ ("dup", "unsigned int fildes" ∷ [])
    ∷ ("semget", "key_t key" ∷ "int nsems" ∷ "int semflg" ∷ [])
    ∷ ("unlink", "const char *pathname" ∷ [])
    ∷ ("chmod", "const char *filename" ∷ "umode_t mode" ∷ [])
    ∷ ("setresuid", "uid_t ruid" ∷ "uid_t euid" ∷ "uid_t suid" ∷ [])
    ∷ ("getresuid", "uid_t *ruidp" ∷ "uid_t *euidp" ∷ "uid_t *suidp" ∷ [])
    ∷ (
      "mount_setattr",
      "int dfd" ∷ "const char *path" ∷ "unsigned int flags" ∷ "struct mount_attr *uattr"
          ∷ "size_t usize" ∷ [],
    )
    ∷ (
      "file_setattr",
      "int dfd" ∷ "const char *filename" ∷ "struct file_attr *ufattr" ∷ "size_t usize"
          ∷ "unsigned int at_flags" ∷ [],
    )
    ∷ ("chdir", "const char *filename" ∷ [])
    ∷ ("fallocate", "int fd" ∷ "int mode" ∷ "loff_t offset" ∷ "loff_t len" ∷ [])
    ∷ (
      "process_madvise",
      "int pidfd" ∷ "const struct iovec *vec" ∷ "size_t vlen" ∷ "int behavior"
          ∷ "unsigned int flags" ∷ [],
    )
    ∷ ("pause", [])
    ∷ ("fadvise64", "int fd" ∷ "loff_t offset" ∷ "size_t len" ∷ "int advice" ∷ [])
    ∷ ("newfstatat", "int dfd" ∷ "const char *filename" ∷ "struct stat *statbuf" ∷ "int flag" ∷ [])
    ∷ ("dup3", "unsigned int oldfd" ∷ "unsigned int newfd" ∷ "int flags" ∷ [])
    ∷ (
      "io_pgetevents",
      "aio_context_t ctx_id" ∷ "long min_nr" ∷ "long nr" ∷ "struct io_event *events"
          ∷ "struct __kernel_timespec *timeout" ∷ "const struct __aio_sigset *usig" ∷ [],
    )
    ∷ (
      "lsm_set_self_attr",
      "unsigned int attr" ∷ "struct lsm_ctx *ctx" ∷ "u32 size" ∷ "u32 flags" ∷ [],
    )
    ∷ ("fchdir", "unsigned int fd" ∷ [])
    ∷ ("clock_adjtime", "const clockid_t which_clock" ∷ "struct __kernel_timex *utx" ∷ [])
    ∷ (
      "open_tree_attr",
      "int dfd" ∷ "const char *filename" ∷ "unsigned flags" ∷ "struct mount_attr *uattr"
          ∷ "size_t usize" ∷ [],
    )
    ∷ (
      "prctl",
      "int option" ∷ "unsigned long arg2" ∷ "unsigned long arg3" ∷ "unsigned long arg4"
          ∷ "unsigned long arg5" ∷ [],
    )
    ∷ (
      "clock_nanosleep",
      "const clockid_t which_clock" ∷ "int flags" ∷ "const struct __kernel_timespec *rqtp"
          ∷ "struct __kernel_timespec *rmtp" ∷ [],
    )
    ∷ []
