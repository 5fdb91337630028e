-- ===== src/Syscall/Names/PartTwo.antt =====
-- internal/syscalls.go: the rows of SyscallTable, part two of three.
use Prim.Native.Nat.{ℕ}
use Prim.Native.String.{String}
use mathlib.Core.List.{List, [], ◌∷◌}

unfoldable pub syscall_names_two : List (ℕ × String)
syscall_names_two =
    (129, "rt_sigqueueinfo")
    ∷ (130, "rt_sigsuspend")
    ∷ (131, "sigaltstack")
    ∷ (132, "utime")
    ∷ (133, "mknod")
    ∷ (134, "uselib")
    ∷ (135, "personality")
    ∷ (136, "ustat")
    ∷ (137, "statfs")
    ∷ (138, "fstatfs")
    ∷ (139, "sysfs")
    ∷ (140, "getpriority")
    ∷ (141, "setpriority")
    ∷ (142, "sched_setparam")
    ∷ (143, "sched_getparam")
    ∷ (144, "sched_setscheduler")
    ∷ (145, "sched_getscheduler")
    ∷ (146, "sched_get_priority_max")
    ∷ (147, "sched_get_priority_min")
    ∷ (148, "sched_rr_get_interval")
    ∷ (149, "mlock")
    ∷ (150, "munlock")
    ∷ (151, "mlockall")
    ∷ (152, "munlockall")
    ∷ (153, "vhangup")
    ∷ (154, "modify_ldt")
    ∷ (155, "pivot_root")
    ∷ (156, "_sysctl")
    ∷ (157, "prctl")
    ∷ (158, "arch_prctl")
    ∷ (159, "adjtimex")
    ∷ (160, "setrlimit")
    ∷ (161, "chroot")
    ∷ (162, "sync")
    ∷ (163, "acct")
    ∷ (164, "settimeofday")
    ∷ (165, "mount")
    ∷ (166, "umount2")
    ∷ (167, "swapon")
    ∷ (168, "swapoff")
    ∷ (169, "reboot")
    ∷ (170, "sethostname")
    ∷ (171, "setdomainname")
    ∷ (172, "iopl")
    ∷ (173, "ioperm")
    ∷ (174, "create_module")
    ∷ (175, "init_module")
    ∷ (176, "delete_module")
    ∷ (177, "get_kernel_syms")
    ∷ (178, "query_module")
    ∷ (179, "quotactl")
    ∷ (180, "nfsservctl")
    ∷ (181, "getpmsg")
    ∷ (182, "putpmsg")
    ∷ (183, "afs_syscall")
    ∷ (184, "tuxcall")
    ∷ (185, "security")
    ∷ (186, "gettid")
    ∷ (187, "readahead")
    ∷ (188, "setxattr")
    ∷ (189, "lsetxattr")
    ∷ (190, "fsetxattr")
    ∷ (191, "getxattr")
    ∷ (192, "lgetxattr")
    ∷ (193, "fgetxattr")
    ∷ (194, "listxattr")
    ∷ (195, "llistxattr")
    ∷ (196, "flistxattr")
    ∷ (197, "removexattr")
    ∷ (198, "lremovexattr")
    ∷ (199, "fremovexattr")
    ∷ (200, "tkill")
    ∷ (201, "time")
    ∷ (202, "futex")
    ∷ (203, "sched_setaffinity")
    ∷ (204, "sched_getaffinity")
    ∷ (205, "set_thread_area")
    ∷ (206, "io_setup")
    ∷ (207, "io_destroy")
    ∷ (208, "io_getevents")
    ∷ (209, "io_submit")
    ∷ (210, "io_cancel")
    ∷ (211, "get_thread_area")
    ∷ (212, "lookup_dcookie")
    ∷ (213, "epoll_create")
    ∷ (214, "epoll_ctl_old")
    ∷ (215, "epoll_wait_old")
    ∷ (216, "remap_file_pages")
    ∷ (217, "getdents64")
    ∷ (218, "set_tid_address")
    ∷ (219, "restart_syscall")
    ∷ (220, "semtimedop")
    ∷ (221, "fadvise64")
    ∷ (222, "timer_create")
    ∷ (223, "timer_settime")
    ∷ (224, "timer_gettime")
    ∷ (225, "timer_getoverrun")
    ∷ (226, "timer_delete")
    ∷ (227, "clock_settime")
    ∷ (228, "clock_gettime")
    ∷ (229, "clock_getres")
    ∷ (230, "clock_nanosleep")
    ∷ (231, "exit_group")
    ∷ (232, "epoll_wait")
    ∷ (233, "epoll_ctl")
    ∷ (234, "tgkill")
    ∷ (235, "utimes")
    ∷ (236, "vserver")
    ∷ (237, "mbind")
    ∷ (238, "set_mempolicy")
    ∷ (239, "get_mempolicy")
    ∷ (240, "mq_open")
    ∷ (241, "mq_unlink")
    ∷ (242, "mq_timedsend")
    ∷ (243, "mq_timedreceive")
    ∷ (244, "mq_notify")
    ∷ (245, "mq_getsetattr")
    ∷ (246, "kexec_load")
    ∷ (247, "waitid")
    ∷ (248, "add_key")
    ∷ (249, "request_key")
    ∷ (250, "keyctl")
    ∷ (251, "ioprio_set")
    ∷ (252, "ioprio_get")
    ∷ (253, "inotify_init")
    ∷ (254, "inotify_add_watch")
    ∷ (255, "inotify_rm_watch")
    ∷ (256, "migrate_pages")
    ∷ (257, "openat")
    ∷ []
