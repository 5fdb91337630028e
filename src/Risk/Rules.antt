-- ===== src/Risk/Rules.antt =====
-- risk.go: sensitiveArgSyscalls.
use syscap.Base.{String, List, [], ◌∷◌}
use syscap.Risk.Pattern.{SensitiveArgRule, sar}

unfoldable pub sensitive_arg_syscalls : List (String × List SensitiveArgRule)
unfolding sar
sensitive_arg_syscalls =
    (
      "socket",
      sar "family=AF_PACKET"
            "AF_PACKET exposes link-layer packet access and is unusual for ordinary application containers."
          ∷ sar "family=AF_NETLINK"
              "AF_NETLINK talks to kernel networking control paths and is more sensitive than ordinary TCP/UDP traffic."
          ∷ sar "type=[^,]*SOCK_RAW([^,]*)?$"
              "SOCK_RAW allows raw packet construction or inspection and usually deserves extra review in containers."
          ∷ [],
    )
    ∷ (
      "clone",
      sar "clone_flags=[^,]*CLONE_NEWCGROUP([^,]*)?$"
            "Creating a new cgroup namespace changes container control boundaries and is uncommon for regular workloads."
          ∷ sar "clone_flags=[^,]*CLONE_NEWIPC([^,]*)?$"
              "Creating a new IPC namespace changes inter-process communication boundaries and is uncommon for regular workloads."
          ∷ sar "clone_flags=[^,]*CLONE_NEWNET([^,]*)?$"
              "Creating a new network namespace is a boundary-changing operation that is usually runtime-managed, not app-managed."
          ∷ sar "clone_flags=[^,]*CLONE_NEWNS([^,]*)?$"
              "Creating a new mount namespace is strongly related to filesystem and isolation boundary changes."
          ∷ sar "clone_flags=[^,]*CLONE_NEWPID([^,]*)?$"
              "Creating a new PID namespace changes process-view boundaries and is unusual in ordinary application containers."
          ∷ sar "clone_flags=[^,]*CLONE_NEWUSER([^,]*)?$"
              "Creating a new user namespace affects UID/GID privilege boundaries and deserves extra review."
          ∷ sar "clone_flags=[^,]*CLONE_NEWUTS([^,]*)?$"
              "Creating a new UTS namespace changes hostname/domain isolation boundaries and is uncommon in ordinary workloads."
          ∷ [],
    )
    ∷ (
      "unshare",
      sar "unshare_flags=[^,]*CLONE_NEWCGROUP([^,]*)?$"
            "Unsharing into a new cgroup namespace changes control boundaries and is uncommon for regular workloads."
          ∷ sar "unshare_flags=[^,]*CLONE_NEWIPC([^,]*)?$"
              "Unsharing into a new IPC namespace changes communication boundaries and is uncommon for regular workloads."
          ∷ sar "unshare_flags=[^,]*CLONE_NEWNET([^,]*)?$"
              "Unsharing into a new network namespace changes network isolation boundaries."
          ∷ sar "unshare_flags=[^,]*CLONE_NEWNS([^,]*)?$"
              "Unsharing into a new mount namespace is closely related to filesystem and isolation boundary changes."
          ∷ sar "unshare_flags=[^,]*CLONE_NEWPID([^,]*)?$"
              "Unsharing into a new PID namespace changes process-view boundaries and deserves extra review."
          ∷ sar "unshare_flags=[^,]*CLONE_NEWUSER([^,]*)?$"
              "Unsharing into a new user namespace affects privilege boundaries and deserves extra review."
          ∷ sar "unshare_flags=[^,]*CLONE_NEWUTS([^,]*)?$"
              "Unsharing into a new UTS namespace changes hostname/domain isolation boundaries."
          ∷ [],
    )
    ∷ (
      "mmap",
      sar "prot=[^,]*PROT_EXEC([^,]*)?$"
            "Executable memory mappings are more sensitive than ordinary data mappings and may support loaders, JITs, or injection-style behavior."
          ∷ sar "prot=[^,]*PROT_EXEC[^,]*PROT_WRITE([^,]*)?$"
              "Writable and executable memory at the same time is a classic high-signal pattern for code loading or injection paths."
          ∷ [],
    )
    ∷ (
      "mprotect",
      sar "prot=[^,]*PROT_EXEC([^,]*)?$"
            "Changing memory protections to executable is more sensitive than ordinary protection changes."
          ∷ sar "prot=[^,]*PROT_EXEC[^,]*PROT_WRITE([^,]*)?$"
              "Changing memory to writable and executable at once is a strong signal for loader or injection-style behavior."
          ∷ [],
    )
    ∷ (
      "open",
      sar "flags=[^,]*O_PATH([^,]*)?$"
            "O_PATH is more OS-internal than ordinary file access and may indicate handle-style filesystem probing."
          ∷ sar "flags=[^,]*O_TMPFILE([^,]*)?$"
              "O_TMPFILE creates unnamed temporary files and may indicate stealthier staging behavior."
          ∷ sar "flags=[^,]*O_CREAT[^,]*O_TRUNC[^,]*O_WRONLY([^,]*)?$"
              "Creating, truncating, and opening a file for write in one step is a strong signal of overwrite or file-drop behavior."
          ∷ [],
    )
    ∷ (
      "openat",
      sar "flags=[^,]*O_PATH([^,]*)?$"
            "O_PATH is more OS-internal than ordinary file access and may indicate handle-style filesystem probing."
          ∷ sar "flags=[^,]*O_TMPFILE([^,]*)?$"
              "O_TMPFILE creates unnamed temporary files and may indicate stealthier staging behavior."
          ∷ sar "flags=[^,]*O_CREAT[^,]*O_TRUNC[^,]*O_WRONLY([^,]*)?$"
              "Creating, truncating, and opening a file for write in one step is a strong signal of overwrite or file-drop behavior."
          ∷ [],
    )
    ∷ (
      "ptrace",
      sar "request=PTRACE_ATTACH"
            "PTRACE_ATTACH indicates one process is trying to attach to another for inspection or control."
          ∷ sar "request=PTRACE_SEIZE"
              "PTRACE_SEIZE is a modern non-stopping attach path and still indicates cross-process tracing intent."
          ∷ sar "request=PTRACE_POKEDATA"
              "PTRACE_POKEDATA attempts to modify another process's memory and is highly sensitive."
          ∷ sar "request=PTRACE_POKETEXT"
              "PTRACE_POKETEXT attempts to modify another process's code or text area and is highly sensitive."
          ∷ sar "request=PTRACE_SETREGS"
              "PTRACE_SETREGS attempts to alter another process's register state and is highly sensitive."
          ∷ [],
    )
    ∷ (
      "bpf",
      sar "cmd=BPF_MAP_CREATE"
            "BPF_MAP_CREATE directly uses eBPF kernel facilities and is uncommon in ordinary application containers."
          ∷ sar "cmd=BPF_PROG_LOAD"
              "BPF_PROG_LOAD attempts to load an eBPF program into the kernel and is highly sensitive."
          ∷ sar "cmd=BPF_LINK_CREATE"
              "BPF_LINK_CREATE attempts to attach eBPF objects into kernel execution paths and is highly sensitive."
          ∷ [],
    )
    ∷ (
      "seccomp",
      sar "op=SECCOMP_SET_MODE_FILTER"
            "Installing seccomp filter mode changes syscall policy at runtime and is security-relevant."
          ∷ sar "op=SECCOMP_SET_MODE_STRICT"
              "Switching to strict seccomp mode is unusual enough to deserve explicit review."
          ∷ sar "flags=[^,]*SECCOMP_FILTER_FLAG_LOG([^,]*)?$"
              "SECCOMP_FILTER_FLAG_LOG changes seccomp behavior toward logging and indicates active seccomp policy management."
          ∷ sar "flags=[^,]*SECCOMP_FILTER_FLAG_NEW_LISTENER([^,]*)?$"
              "SECCOMP_FILTER_FLAG_NEW_LISTENER sets up a userspace notification path and is more sensitive than ordinary filter installation."
          ∷ sar "flags=[^,]*SECCOMP_FILTER_FLAG_TSYNC([^,]*)?$"
              "SECCOMP_FILTER_FLAG_TSYNC synchronizes policy across threads and indicates broad seccomp policy changes."
          ∷ [],
    )
    ∷ (
      "prctl",
      sar "option=PR_SET_SECCOMP"
            "PR_SET_SECCOMP changes seccomp state and is directly security-relevant."
          ∷ sar "option=PR_SET_NO_NEW_PRIVS"
              "PR_SET_NO_NEW_PRIVS changes privilege-transition behavior and is security-relevant."
          ∷ sar "option=PR_SET_PTRACER"
              "PR_SET_PTRACER changes who may trace this process and affects debugging or introspection exposure."
          ∷ sar "option=PR_SET_DUMPABLE"
              "PR_SET_DUMPABLE changes dumpability and can affect ptrace and memory-inspection exposure."
          ∷ [],
    )
    ∷ []
