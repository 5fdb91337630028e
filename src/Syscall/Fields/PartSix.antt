-- ===== src/Syscall/Fields/PartSix.antt =====
-- internal/syscalls.go: the rows of SyscallFields, part six of thirteen.
use Prim.Native.String.{String}
use mathlib.Core.List.{List, [], ◌∷◌}

unfoldable pub syscall_fields_six : List (String × List String)
syscall_fields_six =
    ("getuid", [])
    ∷ ("syslog", "int type" ∷ "char *buf" ∷ "int len" ∷ [])
    ∷ ("capget", "cap_user_header_t header" ∷ "cap_user_data_t dataptr" ∷ [])
    ∷ ("symlinkat", "const char *oldname" ∷ "int newdfd" ∷ "const char *newname" ∷ [])
    ∷ ("brk", "unsigned long brk" ∷ [])
    ∷ ("ioctl", "unsigned int fd" ∷ "unsigned int cmd" ∷ "unsigned long arg" ∷ [])
    ∷ ("setuid", "uid_t uid" ∷ [])
    ∷ ("listxattr", "const char *pathname" ∷ "char *list" ∷ "size_t size" ∷ [])
    ∷ ("io_submit", "aio_context_t ctx_id" ∷ "long nr" ∷ "struct iocb * *iocbpp" ∷ [])
    ∷ ("eventfd2", "unsigned int count" ∷ "int flags" ∷ [])
    ∷ (
      "rt_sigaction",
      "int sig" ∷ "const struct sigaction *act" ∷ "struct sigaction *oact" ∷ "size_t sigsetsize"
          ∷ [],
    )
    ∷ ("rt_sigprocmask", "int how" ∷ "sigset_t *nset" ∷ "sigset_t *oset" ∷ "size_t sigsetsize" ∷ [])
    ∷ ("pipe", "int *fildes" ∷ [])
    ∷ ("getsockname", "int fd" ∷ "struct sockaddr *usockaddr" ∷ "int *usockaddr_len" ∷ [])
    ∷ ("getpgid", "pid_t pid" ∷ [])
    ∷ (
      "kexec_file_load",
      "int kernel_fd" ∷ "int initrd_fd" ∷ "unsigned long cmdline_len" ∷ "const char *cmdline_ptr"
          ∷ "unsigned long flags" ∷ [],
    )
    ∷ ("kill", "pid_t pid" ∷ "int sig" ∷ [])
    ∷ (
      "move_pages",
      "pid_t pid" ∷ "unsigned long nr_pages" ∷ "const void * *pages" ∷ "const int *nodes"
          ∷ "int *status" ∷ "int flags" ∷ [],
    )
    ∷ ("open_tree", "int dfd" ∷ "const char *filename" ∷ "unsigned flags" ∷ [])
    ∷ ("msgctl", "int msqid" ∷ "int cmd" ∷ "struct msqid_ds *buf" ∷ [])
    ∷ ("utime", "char *filename" ∷ "struct utimbuf *times" ∷ [])
    ∷ ("io_cancel", "aio_context_t ctx_id" ∷ "struct iocb *iocb" ∷ "struct io_event *result" ∷ [])
    ∷ ("rseq", "struct rseq *rseq" ∷ "u32 rseq_len" ∷ "int flags" ∷ "u32 sig" ∷ [])
    ∷ ("fchmod", "unsigned int fd" ∷ "umode_t mode" ∷ [])
    ∷ ("setreuid", "uid_t ruid" ∷ "uid_t euid" ∷ [])
    ∷ ("sched_getparam", "pid_t pid" ∷ "struct sched_param *param" ∷ [])
    ∷ ("delete_module", "const char *name_user" ∷ "unsigned int flags" ∷ [])
    ∷ (
      "msgrcv",
      "int msqid" ∷ "struct msgbuf *msgp" ∷ "size_t msgsz" ∷ "long msgtyp" ∷ "int msgflg" ∷ [],
    )
    ∷ []
