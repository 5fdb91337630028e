-- ===== src/Risk/Examples.antt =====
-- risk.go: the rules on some texts, and the findings of a syscall.
use syscap.Args.Format.{format_parsed_arguments}
use syscap.Base.{
  arith, ◌+◌, ◌*◌, ◌≤◌, Bool, true, false, [], ◌∷◌, String, Bytes, codes, none, some, keep, length,
  map, join, lookup_or, nat_eq, string_eq, ◌≡◌, ◌↔◌, refl, pos, negsuc, all,
}
use syscap.Monitor.Records.{RunningLogMetadata, no_info, OverallInfo, syscall_name_of}
use syscap.Monitor.Statistics.{no_calls}
use syscap.Risk.Abnormal.{is_telling, check_abnormal_ret_val, generate_overall_finding}
use syscap.Risk.Collect.{get_info_from_syscall_name, check_failing_too_much}
use syscap.Risk.Findings.{AllAbout}
use syscap.Risk.Level.{Risk}
use syscap.Risk.Misanchored.{all_rules, misanchored_rules, misanchored-match_string}
use syscap.Risk.Names.{get_info-known, get_info-unknown}
use syscap.Risk.Overall.{generate_overall_finding-AllAbout, check_failing_too_much_iff}
use syscap.Risk.Pattern.{SensitiveArgRule, sar, compile, match_string}
use syscap.Risk.Rules.{sensitive_arg_syscalls}
use syscap.Syscall.{syscall_table}
use syscap.Risk.Telling.{length-check_abnormal_ret_val}

-- A socket call that fails for want of descriptors.
abbrev one_socket : RunningLogMetadata
one_socket = record {
  pid = 7;
  uid = 0;
  tid = 7;
  ppid = 1;
  syscall_name = "socket";
  duration = pos 20;
  return_value = negsuc 23;
  comm = codes "sh";
  arguments = codes "int family=AF_PACKET, int type=SOCK_RAW, int protocol=0";
  deref_arguments = [];
}

abbrev twenty_sockets : OverallInfo
twenty_sockets =
    (
      41,
      record {
        running = one_socket ∷ [];
        result = record no_calls { called_count = 20; failed_count = 8 };
      },
    )
    ∷ []

matches : String → Bytes → Bool
matches pattern text = match_string (sar pattern "") text

packet_rule_fires : matches "family=AF_PACKET" one_socket.arguments ≡ true
unfolding matches match_string sar
packet_rule_fires = refl

raw_rule_is_silent : matches "type=[^,]*SOCK_RAW([^,]*)?$" one_socket.arguments ≡ false
unfolding matches match_string sar
raw_rule_is_silent = refl

raw_rule_at_the_end :
    matches "type=[^,]*SOCK_RAW([^,]*)?$" (codes "int type=SOCK_CLOEXEC|SOCK_RAW") ≡ true
unfolding matches match_string sar
raw_rule_at_the_end = refl

-- Nineteen of the 44 rules.
count_misanchored :
    (length misanchored_rules ≡ 19) × (length (all_rules sensitive_arg_syscalls) ≡ 44)
unfolding misanchored_rules all_rules sensitive_arg_syscalls
count_misanchored = (refl, refl)

compiles : String × SensitiveArgRule → Bool
compiles (name, rule) = elim (compile (codes rule.source)) [ none ↦ false | some pieces ↦ true ]

all_compile : all compiles (all_rules sensitive_arg_syscalls) ≡ true
unfolding compiles compile all_rules sensitive_arg_syscalls
all_compile = refl

misanchored-match_string_example :
    match_string
      (sar "type=[^,]*SOCK_RAW([^,]*)?$"
        "SOCK_RAW allows raw packet construction or inspection and usually deserves extra review in containers.")
      (codes "int family=AF_PACKET, int type=SOCK_RAW, int protocol=0")
    ≡ false
misanchored-match_string_example =
    misanchored-match_string 0 "socket" _ 17 3 0 0 0 0
      (codes "int family=AF_PACKET, int type=SOCK_RAW, int protocol=0")
      (unfold misanchored_rules sensitive_arg_syscalls in refl)
      (unfold format_parsed_arguments join in refl)

get_info-known_example :
    get_info_from_syscall_name twenty_sockets (syscall_name_of 41)
    ≡ lookup_or no_info 41 twenty_sockets
unfolding syscall_table
get_info-known_example = get_info-known twenty_sockets 41 refl

get_info-unknown_example :
    get_info_from_syscall_name twenty_sockets (syscall_name_of 400)
    ≡ lookup_or no_info 0 twenty_sockets
unfolding syscall_table
get_info-unknown_example = get_info-unknown twenty_sockets 400 refl

generate_overall_finding-AllAbout_example :
    AllAbout "socket"
      (get_info_from_syscall_name twenty_sockets "socket")
      (generate_overall_finding twenty_sockets "socket")
generate_overall_finding-AllAbout_example =
    generate_overall_finding-AllAbout twenty_sockets "socket"

check_failing_too_much_iff_example : (check_failing_too_much twenty_sockets "socket" ≡ true) ↔ (
    (20 ≤ (get_info_from_syscall_name twenty_sockets "socket").result.called_count)
    × (2 * (get_info_from_syscall_name twenty_sockets "socket").result.called_count
        ≤ 5 * (get_info_from_syscall_name twenty_sockets "socket").result.failed_count))
unfolding get_info_from_syscall_name
check_failing_too_much_iff_example =
    check_failing_too_much_iff twenty_sockets "socket" (omega arith) (omega arith)

length-check_abnormal_ret_val_example :
    length (check_abnormal_ret_val twenty_sockets "socket" [])
    ≡ 0
      + length (
          keep
            (λ r. is_telling "socket" r.return_value)
            (get_info_from_syscall_name twenty_sockets "socket").running)
length-check_abnormal_ret_val_example = length-check_abnormal_ret_val twenty_sockets "socket" []

-- The packet rule, the failing rate and the return value.
socket_categories :
    map (λ (r : Risk). r.risk_category) (generate_overall_finding twenty_sockets "socket")
    ≡ "failing_too_much" ∷ "arg_sensitive" ∷ "abnormal_ret_val" ∷ []
unfolding generate_overall_finding match_string
socket_categories = refl
