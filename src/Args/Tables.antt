-- ===== src/Args/Tables.antt =====
-- parse_arg.go: the constants and the tables of the decoders, in the source's order.
use syscap.Base.{ℕ, String, List, [], ◌∷◌}

-- namedValue
pub record NamedValue : Type 0 where
  pub name : String
  pub value : ℕ

abbrev pub named : String → ℕ → NamedValue
named n v = record { name = n; value = v }

abbrev pub sock_nonblock : ℕ
sock_nonblock = 0x800

abbrev pub sock_cloexec : ℕ
sock_cloexec = 0x80000

abbrev pub o_creat : ℕ
o_creat = 0x40

abbrev pub o_excl : ℕ
o_excl = 0x80

abbrev pub o_noctty : ℕ
o_noctty = 0x100

abbrev pub o_trunc : ℕ
o_trunc = 0x200

abbrev pub o_append : ℕ
o_append = 0x400

abbrev pub o_nonblock : ℕ
o_nonblock = 0x800

abbrev pub o_dsync : ℕ
o_dsync = 0x1000

abbrev pub o_async : ℕ
o_async = 0x2000

abbrev pub o_direct : ℕ
o_direct = 0x4000

abbrev pub o_large : ℕ
o_large = 0x8000

abbrev pub o_directory : ℕ
o_directory = 0x10000

abbrev pub o_nofollow : ℕ
o_nofollow = 0x20000

abbrev pub o_noatime : ℕ
o_noatime = 0x40000

abbrev pub o_cloexec : ℕ
o_cloexec = 0x80000

abbrev pub o_sync : ℕ
o_sync = 0x101000

abbrev pub o_path : ℕ
o_path = 0x200000

abbrev pub o_tmpfile : ℕ
o_tmpfile = 0x410000

unfoldable pub socket_families : List (ℕ × String)
socket_families =
    (0, "AF_UNSPEC")
    ∷ (1, "AF_UNIX")
    ∷ (2, "AF_INET")
    ∷ (10, "AF_INET6")
    ∷ (16, "AF_NETLINK")
    ∷ (17, "AF_PACKET")
    ∷ []

unfoldable pub socket_types : List (ℕ × String)
socket_types =
    (1, "SOCK_STREAM")
    ∷ (2, "SOCK_DGRAM")
    ∷ (3, "SOCK_RAW")
    ∷ (4, "SOCK_RDM")
    ∷ (5, "SOCK_SEQPACKET")
    ∷ (6, "SOCK_DCCP")
    ∷ (10, "SOCK_PACKET")
    ∷ []

unfoldable pub namespace_flags : List NamedValue
namespace_flags =
    named "CLONE_NEWCGROUP" 0x02000000
    ∷ named "CLONE_NEWIPC" 0x08000000
    ∷ named "CLONE_NEWNET" 0x40000000
    ∷ named "CLONE_NEWNS" 0x00020000
    ∷ named "CLONE_NEWPID" 0x20000000
    ∷ named "CLONE_NEWUSER" 0x10000000
    ∷ named "CLONE_NEWUTS" 0x04000000
    ∷ []

unfoldable pub mmap_protections : List NamedValue
mmap_protections =
    named "PROT_EXEC" 0x4
    ∷ named "PROT_GROWSDOWN" 0x01000000
    ∷ named "PROT_GROWSUP" 0x02000000
    ∷ named "PROT_READ" 0x1
    ∷ named "PROT_SEM" 0x8
    ∷ named "PROT_WRITE" 0x2
    ∷ []

unfoldable pub mmap_flags : List NamedValue
mmap_flags =
    named "MAP_32BIT" 0x40
    ∷ named "MAP_ANONYMOUS" 0x20
    ∷ named "MAP_DENYWRITE" 0x800
    ∷ named "MAP_EXECUTABLE" 0x1000
    ∷ named "MAP_FAILED" 0x0
    ∷ named "MAP_FIXED" 0x10
    ∷ named "MAP_FIXED_NOREPLACE" 0x100000
    ∷ named "MAP_GROWSDOWN" 0x100
    ∷ named "MAP_HUGETLB" 0x40000
    ∷ named "MAP_LOCKED" 0x2000
    ∷ named "MAP_NONBLOCK" 0x10000
    ∷ named "MAP_NORESERVE" 0x4000
    ∷ named "MAP_POPULATE" 0x8000
    ∷ named "MAP_PRIVATE" 0x02
    ∷ named "MAP_SHARED" 0x01
    ∷ named "MAP_STACK" 0x20000
    ∷ named "MAP_SYNC" 0x80000
    ∷ []

unfoldable pub open_flag_bits : List NamedValue
open_flag_bits =
    named "O_APPEND" o_append
    ∷ named "O_ASYNC" o_async
    ∷ named "O_CLOEXEC" o_cloexec
    ∷ named "O_CREAT" o_creat
    ∷ named "O_DIRECT" o_direct
    ∷ named "O_DIRECTORY" o_directory
    ∷ named "O_DSYNC" o_dsync
    ∷ named "O_EXCL" o_excl
    ∷ named "O_LARGEFILE" o_large
    ∷ named "O_NOATIME" o_noatime
    ∷ named "O_NOCTTY" o_noctty
    ∷ named "O_NOFOLLOW" o_nofollow
    ∷ named "O_NONBLOCK" o_nonblock
    ∷ named "O_PATH" o_path
    ∷ named "O_TRUNC" o_trunc
    ∷ []

unfoldable pub clone_flags : List NamedValue
clone_flags =
    named "CLONE_CHILD_CLEARTID" 0x00200000
    ∷ named "CLONE_CHILD_SETTID" 0x01000000
    ∷ named "CLONE_FILES" 0x00000400
    ∷ named "CLONE_FS" 0x00000200
    ∷ named "CLONE_IO" 0x80000000
    ∷ named "CLONE_NEWCGROUP" 0x02000000
    ∷ named "CLONE_NEWIPC" 0x08000000
    ∷ named "CLONE_NEWNET" 0x40000000
    ∷ named "CLONE_NEWNS" 0x00020000
    ∷ named "CLONE_NEWPID" 0x20000000
    ∷ named "CLONE_NEWUSER" 0x10000000
    ∷ named "CLONE_NEWUTS" 0x04000000
    ∷ named "CLONE_PARENT" 0x00008000
    ∷ named "CLONE_PARENT_SETTID" 0x00100000
    ∷ named "CLONE_PTRACE" 0x00002000
    ∷ named "CLONE_SETTLS" 0x00080000
    ∷ named "CLONE_SIGHAND" 0x00000800
    ∷ named "CLONE_SYSVSEM" 0x00040000
    ∷ named "CLONE_THREAD" 0x00010000
    ∷ named "CLONE_UNTRACED" 0x00800000
    ∷ named "CLONE_VFORK" 0x00004000
    ∷ named "CLONE_VM" 0x00000100
    ∷ []

unfoldable pub ptrace_requests : List (ℕ × String)
ptrace_requests =
    (0, "PTRACE_TRACEME")
    ∷ (1, "PTRACE_PEEKTEXT")
    ∷ (2, "PTRACE_PEEKDATA")
    ∷ (3, "PTRACE_PEEKUSER")
    ∷ (4, "PTRACE_POKETEXT")
    ∷ (5, "PTRACE_POKEDATA")
    ∷ (6, "PTRACE_POKEUSER")
    ∷ (7, "PTRACE_CONT")
    ∷ (8, "PTRACE_KILL")
    ∷ (9, "PTRACE_SINGLESTEP")
    ∷ (12, "PTRACE_GETREGS")
    ∷ (13, "PTRACE_SETREGS")
    ∷ (14, "PTRACE_GETFPREGS")
    ∷ (15, "PTRACE_SETFPREGS")
    ∷ (16, "PTRACE_ATTACH")
    ∷ (17, "PTRACE_DETACH")
    ∷ (24, "PTRACE_SYSCALL")
    ∷ (0x4200, "PTRACE_SETOPTIONS")
    ∷ (0x4201, "PTRACE_GETEVENTMSG")
    ∷ (0x4202, "PTRACE_GETSIGINFO")
    ∷ (0x4203, "PTRACE_SETSIGINFO")
    ∷ (0x4204, "PTRACE_GETREGSET")
    ∷ (0x4205, "PTRACE_SETREGSET")
    ∷ (0x4206, "PTRACE_SEIZE")
    ∷ (0x4207, "PTRACE_INTERRUPT")
    ∷ (0x4208, "PTRACE_LISTEN")
    ∷ (0x4209, "PTRACE_PEEKSIGINFO")
    ∷ (0x420a, "PTRACE_GETSIGMASK")
    ∷ (0x420b, "PTRACE_SETSIGMASK")
    ∷ (0x420d, "PTRACE_SECCOMP_GET_METADATA")
    ∷ (0x420e, "PTRACE_GET_SYSCALL_INFO")
    ∷ []

unfoldable pub bpf_commands : List (ℕ × String)
bpf_commands =
    (0, "BPF_MAP_CREATE")
    ∷ (1, "BPF_MAP_LOOKUP_ELEM")
    ∷ (2, "BPF_MAP_UPDATE_ELEM")
    ∷ (3, "BPF_MAP_DELETE_ELEM")
    ∷ (4, "BPF_MAP_GET_NEXT_KEY")
    ∷ (5, "BPF_PROG_LOAD")
    ∷ (6, "BPF_OBJ_PIN")
    ∷ (7, "BPF_OBJ_GET")
    ∷ (8, "BPF_PROG_ATTACH")
    ∷ (9, "BPF_PROG_DETACH")
    ∷ (10, "BPF_PROG_TEST_RUN")
    ∷ (11, "BPF_PROG_GET_NEXT_ID")
    ∷ (12, "BPF_MAP_GET_NEXT_ID")
    ∷ (13, "BPF_PROG_GET_FD_BY_ID")
    ∷ (14, "BPF_MAP_GET_FD_BY_ID")
    ∷ (15, "BPF_OBJ_GET_INFO_BY_FD")
    ∷ (16, "BPF_PROG_QUERY")
    ∷ (17, "BPF_RAW_TRACEPOINT_OPEN")
    ∷ (18, "BPF_BTF_LOAD")
    ∷ (19, "BPF_BTF_GET_FD_BY_ID")
    ∷ (20, "BPF_TASK_FD_QUERY")
    ∷ (21, "BPF_MAP_LOOKUP_AND_DELETE_ELEM")
    ∷ (22, "BPF_MAP_FREEZE")
    ∷ (23, "BPF_BTF_GET_NEXT_ID")
    ∷ (24, "BPF_MAP_LOOKUP_BATCH")
    ∷ (25, "BPF_MAP_LOOKUP_AND_DELETE_BATCH")
    ∷ (26, "BPF_MAP_UPDATE_BATCH")
    ∷ (27, "BPF_MAP_DELETE_BATCH")
    ∷ (28, "BPF_LINK_CREATE")
    ∷ (29, "BPF_LINK_UPDATE")
    ∷ (30, "BPF_LINK_GET_FD_BY_ID")
    ∷ (31, "BPF_LINK_GET_NEXT_ID")
    ∷ (32, "BPF_ENABLE_STATS")
    ∷ (33, "BPF_ITER_CREATE")
    ∷ (34, "BPF_LINK_DETACH")
    ∷ (35, "BPF_PROG_BIND_MAP")
    ∷ (36, "BPF_TOKEN_CREATE")
    ∷ []

unfoldable pub seccomp_operations : List (ℕ × String)
seccomp_operations =
    (0, "SECCOMP_SET_MODE_STRICT")
    ∷ (1, "SECCOMP_SET_MODE_FILTER")
    ∷ (2, "SECCOMP_GET_ACTION_AVAIL")
    ∷ (3, "SECCOMP_GET_NOTIF_SIZES")
    ∷ []

unfoldable pub seccomp_flags : List NamedValue
seccomp_flags =
    named "SECCOMP_FILTER_FLAG_LOG" 0x2
    ∷ named "SECCOMP_FILTER_FLAG_NEW_LISTENER" 0x8
    ∷ named "SECCOMP_FILTER_FLAG_SPEC_ALLOW" 0x4
    ∷ named "SECCOMP_FILTER_FLAG_TSYNC" 0x1
    ∷ named "SECCOMP_FILTER_FLAG_TSYNC_ESRCH" 0x10
    ∷ named "SECCOMP_FILTER_FLAG_WAIT_KILLABLE_RECV" 0x20
    ∷ []

unfoldable pub prctl_options : List (ℕ × String)
prctl_options =
    (1, "PR_SET_PDEATHSIG")
    ∷ (2, "PR_GET_PDEATHSIG")
    ∷ (3, "PR_GET_DUMPABLE")
    ∷ (4, "PR_SET_DUMPABLE")
    ∷ (15, "PR_SET_NAME")
    ∷ (16, "PR_GET_NAME")
    ∷ (21, "PR_GET_SECCOMP")
    ∷ (22, "PR_SET_SECCOMP")
    ∷ (23, "PR_CAPBSET_READ")
    ∷ (24, "PR_CAPBSET_DROP")
    ∷ (36, "PR_SET_CHILD_SUBREAPER")
    ∷ (37, "PR_GET_CHILD_SUBREAPER")
    ∷ (38, "PR_SET_NO_NEW_PRIVS")
    ∷ (39, "PR_GET_NO_NEW_PRIVS")
    ∷ (40, "PR_GET_TID_ADDRESS")
    ∷ (0x59616d61, "PR_SET_PTRACER")
    ∷ []
