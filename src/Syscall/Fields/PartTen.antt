-- ===== src/Syscall/Fields/PartTen.antt =====
-- internal/syscalls.go: the rows of SyscallFields, part ten of thirteen.
use Prim.Native.String.{String}
use mathlib.Core.List.{List, [], ◌∷◌}

unfoldable pub syscall_fields_ten : List (String × List String)
syscall_fields_ten =
    ("ustat", "unsigned dev" ∷ "struct ustat *ubuf" ∷ [])
    ∷ ("timer_getoverrun", "timer_t timer_id" ∷ [])
    ∷ ("add_key", "size_t plen" ∷ "key_serial_t ringid" ∷ [])
    ∷ (
      "io_uring_enter",
      "unsigned int fd" ∷ "u32 to_submit" ∷ "u32 min_complete" ∷ "u32 flags" ∷ "const void *argp"
          ∷ "size_t argsz" ∷ [],
    )
    ∷ ("getpgrp", [])
    ∷ (
      "getdents64",
      "unsigned int fd" ∷ "struct linux_dirent64 *dirent" ∷ "unsigned int count" ∷ [],
    )
    ∷ (
      "keyctl",
      "int option" ∷ "unsigned long arg2" ∷ "unsigned long arg3" ∷ "unsigned long arg4"
          ∷ "unsigned long arg5" ∷ [],
    )
    ∷ (
      "process_vm_readv",
      "pid_t pid" ∷ "const struct iovec *lvec" ∷ "unsigned long liovcnt"
          ∷ "const struct iovec *rvec" ∷ "unsigned long riovcnt" ∷ "unsigned long flags" ∷ [],
    )
    ∷ (
      "pwritev2",
      "unsigned long fd" ∷ "const struct iovec *vec" ∷ "unsigned long vlen" ∷ "unsigned long pos_l"
          ∷ "unsigned long pos_h" ∷ "rwf_t flags" ∷ [],
    )
    ∷ ("uretprobe", [])
    ∷ ("rmdir", "const char *pathname" ∷ [])
    ∷ ("quotactl", "unsigned int cmd" ∷ "const char *special" ∷ "qid_t id" ∷ "void *addr" ∷ [])
    ∷ ("munmap", "unsigned long addr" ∷ "size_t len" ∷ [])
    ∷ (
      "recvfrom",
      "int fd" ∷ "void *ubuf" ∷ "size_t size" ∷ "unsigned int flags" ∷ "struct sockaddr *addr"
          ∷ "int *addr_len" ∷ [],
    )
    ∷ ("getrusage", "int who" ∷ "struct rusage *ru" ∷ [])
    ∷ ("getppid", [])
    ∷ ("time", "__kernel_old_time_t *tloc" ∷ [])
    ∷ ("mkdirat", "int dfd" ∷ "const char *pathname" ∷ "umode_t mode" ∷ [])
    ∷ ("lchown", "const char *filename" ∷ "uid_t user" ∷ "gid_t group" ∷ [])
    ∷ ("munlockall", [])
    ∷ ("reboot", "int magic1" ∷ "int magic2" ∷ "unsigned int cmd" ∷ "void *arg" ∷ [])
    ∷ ("io_setup", "unsigned nr_events" ∷ "aio_context_t *ctxp" ∷ [])
    ∷ (
      "copy_file_range",
      "int fd_in" ∷ "loff_t *off_in" ∷ "int fd_out" ∷ "loff_t *off_out" ∷ "size_t len"
          ∷ "unsigned int flags" ∷ [],
    )
    ∷ ("io_uring_setup", "u32 entries" ∷ "struct io_uring_params *params" ∷ [])
    ∷ (
      "listxattrat",
      "int dfd" ∷ "const char *pathname" ∷ "unsigned int at_flags" ∷ "char *list" ∷ "size_t size"
          ∷ [],
    )
    ∷ ("getdents", "unsigned int fd" ∷ "struct linux_dirent *dirent" ∷ "unsigned int count" ∷ [])
    ∷ ("getegid", [])
    ∷ ("mq_notify", "mqd_t mqdes" ∷ "const struct sigevent *u_notification" ∷ [])
    ∷ []
