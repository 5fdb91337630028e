-- ===== src/Syscall/Fields/PartSeven.antt =====
-- internal/syscalls.go: the rows of SyscallFields, part seven of thirteen.
use Prim.Native.String.{String}
use mathlib.Core.List.{List, [], ◌∷◌}

unfoldable pub syscall_fields_seven : List (String × List String)
syscall_fields_seven =
    ("removexattr", "const char *pathname" ∷ "const char *name" ∷ [])
    ∷ ("sched_setaffinity", "pid_t pid" ∷ "unsigned int len" ∷ "unsigned long *user_mask_ptr" ∷ [])
    ∷ ("mknodat", "int dfd" ∷ "const char *filename" ∷ "umode_t mode" ∷ "unsigned int dev" ∷ [])
    ∷ ("open_by_handle_at", "int mountdirfd" ∷ "struct file_handle *handle" ∷ "int flags" ∷ [])
    ∷ ("shmget", "key_t key" ∷ "size_t size" ∷ "int shmflg" ∷ [])
    ∷ ("nanosleep", "struct __kernel_timespec *rqtp" ∷ "struct __kernel_timespec *rmtp" ∷ [])
    ∷ (
      "setitimer",
      "int which" ∷ "struct __kernel_old_itimerval *value" ∷ "struct __kernel_old_itimerval *ovalue"
          ∷ [],
    )
    ∷ ("setsockopt", "int fd" ∷ "int level" ∷ "int optname" ∷ "char *optval" ∷ "int optlen" ∷ [])
    ∷ (
      "execve",
      "const char *filename" ∷ "const char *const *argv" ∷ "const char *const *envp" ∷ [],
    )
    ∷ ("ftruncate", "unsigned int fd" ∷ "off_t length" ∷ [])
    ∷ ("gettimeofday", "struct __kernel_old_timeval *tv" ∷ "struct timezone *tz" ∷ [])
    ∷ ("getpriority", "int which" ∷ "int who" ∷ [])
    ∷ ("chown", "const char *filename" ∷ "uid_t user" ∷ "gid_t group" ∷ [])
    ∷ ("sched_setscheduler", "pid_t pid" ∷ "int policy" ∷ "struct sched_param *param" ∷ [])
    ∷ ("munlock", "unsigned long start" ∷ "size_t len" ∷ [])
    ∷ ("request_key", "key_serial_t destringid" ∷ [])
    ∷ (
      "pwritev",
      "unsigned long fd" ∷ "const struct iovec *vec" ∷ "unsigned long vlen" ∷ "unsigned long pos_l"
          ∷ "unsigned long pos_h" ∷ [],
    )
    ∷ ("fsopen", "unsigned int flags" ∷ [])
    ∷ ("clone3", "struct clone_args *uargs" ∷ "size_t size" ∷ [])
    ∷ (
      "removexattrat",
      "int dfd" ∷ "const char *pathname" ∷ "unsigned int at_flags" ∷ "const char *name" ∷ [],
    )
    ∷ ("setns", "int fd" ∷ "int flags" ∷ [])
    ∷ ("membarrier", "int cmd" ∷ "unsigned int flags" ∷ "int cpu_id" ∷ [])
    ∷ ("poll", "struct pollfd *ufds" ∷ "unsigned int nfds" ∷ "int timeout_msecs" ∷ [])
    ∷ ("accept", "int fd" ∷ "struct sockaddr *upeer_sockaddr" ∷ "int *upeer_addrlen" ∷ [])
    ∷ ("chroot", "const char *filename" ∷ [])
    ∷ ("timer_gettime", "timer_t timer_id" ∷ "struct __kernel_itimerspec *setting" ∷ [])
    ∷ (
      "preadv",
      "unsigned long fd" ∷ "const struct iovec *vec" ∷ "unsigned long vlen" ∷ "unsigned long pos_l"
          ∷ "unsigned long pos_h" ∷ [],
    )
    ∷ (
      "sendmmsg",
      "int fd" ∷ "struct mmsghdr *mmsg" ∷ "unsigned int vlen" ∷ "unsigned int flags" ∷ [],
    )
    ∷ []
