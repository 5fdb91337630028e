-- ===== src/Lib.antt =====
-- syscap records the syscalls of one container and reports what looks dangerous. An eBPF program
-- puts an event into a ring buffer for each syscall of the container; the Go program reads the
-- events, filters them by name, keeps statistics and log entries for each syscall, writes each
-- event into running.log, and at the end summarizes the delays and derives findings.
--
-- The parts, and the files that model them:
-- - Syscall (internal/syscalls.go): the tables SyscallTable, SyscallFields and ReversedSyscallTable,
--   whole, in the source's order, as association lists.
-- - Args (parse_arg.go): Tables has the constants and the value tables, Decode the decoders
--   (decodeExact, decodeBitmask, decodeSocketType, decodeOpenFlags, decodeCloneFlags), Decl
--   parseArgumentDecl and argumentName, Format ParseArgumentValue and FormatParsedArguments. Scan,
--   Flags, OpenFlags and Total hold the proofs.
-- - Kernel (bpf/program.bpf.c): the in-flight map, the ring buffer and the handlers capture_sys_enter
--   and capture_sys_exit. Invariant has the steps and what holds of every reachable state, Reads what
--   the probes leave, Pairing the calls of one thread among those of others, Stale an entry left behind.
-- - Wire (bpf/program.bpf.c, ebpf.go, main.go): the 168 bytes of `struct event`, and what binary.Read
--   makes of a sample.
-- - Reader (main.go): the read loop of `run` over what rd.Read() gives, with its errors.
-- - Pipeline: from the handlers through the bytes to the read loop.
-- - Startup (main.go): Flags has parseArgs and validateArgs, Container extractPID, resolveCgroupPath
--   and resolveCgroupID, Run the statements of `run` before its read loop, with the stack of what it
--   defers and the reader that the shutdown goroutine closes.
-- - Lifecycle (main.go): the shutdown goroutine of `run` and its read loop as a step relation, for the
--   order in which they end.
-- - Scripts (scripts/): Writer is bufio.Writer, Numbering the three generators of
--   syscall_numbering.go (its Reading a reader of the header that one of them writes), Fields getSyscallFields of syscallFields.go, Mapping processRawText and
--   processSyscallNameToIDMapping of syscallMapping.go. They take a map in the order of Go's range.
-- - Event, PtrArgs (ebpf.go): the event, and the slice of pointer masks that fillPtrArgs gives to the
--   kernel side; PtrArgs/Masks also has the mask that scripts/syscall_numbering.go computes.
-- - Monitor (main.go): Statistics has updateStatistics and summarizeOneSyscall, Records the entries
--   (recordLogMetadata, appendRunningMetadataToOverallInfo, assignResultToOverallInfo), Log the lines
--   of running.log, Loop the filter and the body of the read loop in `run`, over decoded events.
--   Tally, Logged, Seen, Total, Percentiles and Median hold the proofs.
-- - Shutdown (main.go): the loop of `run`'s shutdown goroutine over the seen ids, Lines what it writes
--   into performance.log, and EndToEnd, from the events to what the findings read.
-- - Risk (risk.go): Tables and Rules have the sets and the patterns, Pattern compiles and matches
--   them, Rate is the float64 rate of failures, Collect and Abnormal have the five checks and
--   generateOverallFinding. The rest holds proofs.
-- - Base: lists, association lists, texts, numbers and sorting over the native naturals.
--
-- The state. `Monitor` holds the maps syscallStatistics and syscallOverallInfo and what `run` keeps:
-- the seen ids, the count, the text of running.log and the log entries. A map is an association list
-- of which only lookups are read. A text is the list of its bytes. A uint64 or uint32 is a natural
-- number, and a difference wraps at 2^64; int64 and time.Duration are ℤ, with the conversions from
-- uint64 and the overflow of a sum written out. The counters are natural numbers, since 2^63 events
-- do not arrive. `none` from a formatting function stands for a panic by an index out of range.
-- The shutdown works on a `Report`: the two maps and the findings so far. Go ranges over the seen ids
-- in any order, so the model takes the order as its argument; the read loop is taken to leave the maps
-- alone meanwhile. Every loop is structural recursion. There are two fuels: that of printing a number,
-- n + 1 for n, which has no more digits; and 128 doublings in a float64 quotient of counts, which has
-- its 53 bits after at most 53 + 63 of them.
--
-- Patterns. The rules use literal bytes, `[^,]*`, `([^,]*)?` and a final `$`; Pattern compiles these
-- and refuses any other operator. `([^,]*)?` is `[^,]*`. The rate of failures is the float64
-- quotient of the counts, rounded to the nearest and half-way to even, against the float64 nearest to
-- 0.4; counts below 2^53 are float64 numbers as they are.
-- The evidence of a finding is kept as the operands of its format.
--
-- The kernel side. `Kernel` holds the in-flight map (10240 threads at most; a full map takes no new
-- one) and the events submitted so far. What the kernel's helpers answer in a call (ids, times, whether
-- a read of user memory succeeds, whether the ring buffer has room) is a field of the call, and the
-- handlers run one after the other in any order; the table of pointer masks and the target's cgroup id
-- are fixed. `ret` is an int64 and its negation is taken modulo 2^32 for `errno`.
--
-- Parameters. golang.org/x/sys/unix.ByteSliceToString is an argument of what uses it, and so is the
-- `%f` of the success rate. `docker inspect`, the contents of files and os.Stat are the record Outside;
-- the generators take the contents of files and the output of a command, and a write to an open file
-- succeeds. What the flag, strconv, bufio, strings, filepath and encoding/binary packages do for the
-- calls in the source is written out.
--
-- Not modelled: what cilium/ebpf does to load and attach the program (its calls are statements of Run
-- that succeed or fail), the text of running.json and finding.json, which encoding/json writes, the table
-- in bpf/map.c, which fillPtrArgs replaces before the program runs, the generated bindings
-- program_bpfel.go and program_bpfeb.go, and main of scripts/main.go, which calls the generators.
pub mod Base
pub mod Syscall
pub mod Args
pub mod PtrArgs
pub mod Event
pub mod Monitor
pub mod Risk
pub mod Shutdown
pub mod Kernel
pub mod Wire
pub mod Reader
pub mod Pipeline
pub mod Startup
pub mod Scripts
pub mod Lifecycle
