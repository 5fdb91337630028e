-- ===== src/Risk/Misanchored.antt =====
-- risk.go: the rules of sensitiveArgSyscalls whose pattern ends in `$` though it reads an argument
-- that is not the last one of its syscall.
use syscap.Args.Decl.{argument_name}
use syscap.Args.Format.{format_field, format_parsed_arguments}
use syscap.Base.{
  ℕ, zero, suc, some_inj, Bool, true, false, not, ◌&&◌, String, List, [], ◌∷◌, ◌++◌, some, ◌≡◌,
  refl, sym, ap, subst, ◌∙◌, if◌then◌else◌, eqb, ◌==◌, string_eq, bytes_has_eq, keep, All,
  get_elem?, map, lookup_or, Bytes, codes, join, has_byte, decimal, is_digit, decimal-Digits,
}
use syscap.Risk.Closed.{is_closed, match_pieces_last, match_pieces-Digits}
use syscap.Risk.Pattern.{Piece, byte, SensitiveArgRule, compile, match_pieces, match_string}
use syscap.Risk.Rules.{sensitive_arg_syscalls}
use syscap.Syscall.{syscall_fields}

-- The pattern up to its `=`.
unfoldable pub field_of : Bytes → Bytes
field_of [] = []
field_of (c ∷ s) = let rest = field_of s in if eqb c b'=' then [] else c ∷ rest

unfoldable pub last_argument : List String → Bytes
unfolding argument_name
last_argument [] = []
last_argument (f ∷ []) = argument_name (codes f)
last_argument (f ∷ (g ∷ fs)) = last_argument (g ∷ fs)

unfoldable pub is_misanchored : String × SensitiveArgRule → Bool
unfolding field_of last_argument syscall_fields
is_misanchored (name, rule) =
    has_byte b'$' (codes rule.source)
    && not (field_of (codes rule.source) == last_argument (lookup_or [] name syscall_fields))

-- The rules with their syscalls, one by one.
unfoldable pub all_rules : List (String × List SensitiveArgRule) → List (String × SensitiveArgRule)
all_rules [] = []
all_rules ((name, rules) ∷ rest) = map (λ rule. (name, rule)) rules ++ all_rules rest

unfoldable pub misanchored_rules : List (String × SensitiveArgRule)
unfolding is_misanchored all_rules sensitive_arg_syscalls
misanchored_rules = keep is_misanchored (all_rules sensitive_arg_syscalls)

-- Whatever the six arguments, the text has `fixed` and a plain number behind its last comma.
abbrev EndsIn : String → String → Type 0
EndsIn name fixed =
    (a b c d e f : ℕ)
    → (first : Bytes) × (more : List Bytes) × (n : ℕ) × (format_parsed_arguments name
          (a ∷ b ∷ c ∷ d ∷ e ∷ f ∷ [])
        ≡ some (join (codes ", ") (first ∷ (more ++ (codes fixed ++ decimal n) ∷ []))))

socket_ends : EndsIn "socket" "int protocol="
unfolding format_parsed_arguments
socket_ends a b c d e f =
    (format_field "socket" 0 "int family" a, format_field "socket" 1 "int type" b ∷ [], c, refl)

clone_ends : EndsIn "clone" "unsigned long tls="
unfolding format_parsed_arguments
clone_ends a b c d e f = (
  format_field "clone" 0 "unsigned long clone_flags" a,
  format_field "clone" 1 "unsigned long newsp" b
      ∷ format_field "clone" 2 "int *parent_tidptr" c
      ∷ format_field "clone" 3 "int *child_tidptr" d
      ∷ [],
  e,
  refl,
)

mmap_ends : EndsIn "mmap" "unsigned long off="
unfolding format_parsed_arguments
mmap_ends a b c d e f = (
  format_field "mmap" 0 "unsigned long addr" a,
  format_field "mmap" 1 "unsigned long len" b
      ∷ format_field "mmap" 2 "unsigned long prot" c
      ∷ format_field "mmap" 3 "unsigned long flags" d
      ∷ format_field "mmap" 4 "unsigned long fd" e
      ∷ [],
  f,
  refl,
)

open_ends : EndsIn "open" "umode_t mode="
unfolding format_parsed_arguments
open_ends a b c d e f = (
  format_field "open" 0 "const char *filename" a,
  format_field "open" 1 "int flags" b ∷ [],
  c,
  refl,
)

openat_ends : EndsIn "openat" "umode_t mode="
unfolding format_parsed_arguments
openat_ends a b c d e f = (
  format_field "openat" 0 "int dfd" a,
  format_field "openat" 1 "const char *filename" b ∷ format_field "openat" 2 "int flags" c ∷ [],
  d,
  refl,
)

seccomp_ends : EndsIn "seccomp" "void * uargs="
unfolding format_parsed_arguments
seccomp_ends a b c d e f = (
  format_field "seccomp" 0 "unsigned int op" a,
  format_field "seccomp" 1 "unsigned int flags" b ∷ [],
  c,
  refl,
)

-- No arguments give a text that the rule matches.
abbrev Misses : String × SensitiveArgRule → Type 0
Misses (name, rule) =
    (a b c d e f : ℕ) (text : Bytes)
    → format_parsed_arguments name (a ∷ b ∷ c ∷ d ∷ e ∷ f ∷ []) ≡ some text
    → match_string rule text ≡ false

-- A rule misses if its closed pattern begins with no digit and finds nothing in `fixed`.
misses :
    (name fixed : String) (rule : SensitiveArgRule) {b : ℕ} {ps : List Piece}
    → EndsIn name fixed
    → ((n : ℕ)
        → match_pieces (byte b ∷ ps) (b' ' ∷ (codes fixed ++ decimal n))
          ≡ match_pieces (byte b ∷ ps) (decimal n))
    → compile (codes rule.source) ≡ some (byte b ∷ ps)
    → is_closed (byte b ∷ ps) ≡ true
    → is_digit b ≡ false
    → Misses (name, rule)
unfolding match_string
misses name fixed rule {b} {ps} ends past compiled closed nondigit a' b' c' d' e' f' text
      formatted =
    let (first, more, n, shape) = ends a' b' c' d' e' f' in
    let same : text ≡ join (codes ", ") (first ∷ (more ++ (codes fixed ++ decimal n) ∷ [])) =
      some_inj (sym formatted ∙ shape) in
    rw (compiled, match_string)
      (ap (match_pieces (byte b ∷ ps)) same
        ∙ match_pieces_last (byte b ∷ ps) [] first more (codes fixed ++ decimal n) closed
        ∙ past n
        ∙ match_pieces-Digits b ps (decimal n) nondigit (decimal-Digits n))

misanchored-Misses : All Misses misanchored_rules
unfolding misanchored_rules match_pieces compile
misanchored-Misses = (
  misses "socket" "int protocol=" _ socket_ends (λ n. refl) refl refl refl,
  (
    misses "clone" "unsigned long tls=" _ clone_ends (λ n. refl) refl refl refl,
    (
      misses "clone" "unsigned long tls=" _ clone_ends (λ n. refl) refl refl refl,
      (
        misses "clone" "unsigned long tls=" _ clone_ends (λ n. refl) refl refl refl,
        (
          misses "clone" "unsigned long tls=" _ clone_ends (λ n. refl) refl refl refl,
          (
            misses "clone" "unsigned long tls=" _ clone_ends (λ n. refl) refl refl refl,
            (
              misses "clone" "unsigned long tls=" _ clone_ends (λ n. refl) refl refl refl,
              (
                misses "clone" "unsigned long tls=" _ clone_ends (λ n. refl) refl refl refl,
                (
                  misses "mmap" "unsigned long off=" _ mmap_ends (λ n. refl) refl refl refl,
                  (
                    misses "mmap" "unsigned long off=" _ mmap_ends (λ n. refl) refl refl refl,
                    (
                      misses "open" "umode_t mode=" _ open_ends (λ n. refl) refl refl refl,
                      (
                        misses "open" "umode_t mode=" _ open_ends (λ n. refl) refl refl refl,
                        (
                          misses "open" "umode_t mode=" _ open_ends (λ n. refl) refl refl refl,
                          (
                            misses "openat" "umode_t mode=" _ openat_ends (λ n. refl) refl refl
                                refl,
                            (
                              misses "openat" "umode_t mode=" _ openat_ends (λ n. refl) refl refl
                                  refl,
                              (
                                misses "openat" "umode_t mode=" _ openat_ends (λ n. refl) refl refl
                                    refl,
                                (
                                  misses "seccomp" "void * uargs=" _ seccomp_ends (λ n. refl) refl
                                      refl refl,
                                  (
                                    misses "seccomp" "void * uargs=" _ seccomp_ends (λ n. refl) refl
                                        refl refl,
                                    (
                                      misses "seccomp" "void * uargs=" _ seccomp_ends (λ n. refl)
                                          refl refl refl,
                                      tt,
                                    ),
                                  ),
                                ),
                              ),
                            ),
                          ),
                        ),
                      ),
                    ),
                  ),
                ),
              ),
            ),
          ),
        ),
      ),
    ),
  ),
)

get_elem?-All {ℓ κ} :
    {A : Type ℓ} (P : A → Type κ) (xs : List A) (i : ℕ) {x : A}
    → All P xs
    → get_elem? xs i ≡ some x
    → P x
get_elem?-All P [] i h e = cc
get_elem?-All P (y ∷ ys) zero h e = subst P (some_inj e) h.0
get_elem?-All P (y ∷ ys) (suc i) h e = get_elem?-All P ys i h.1 e

-- A rule whose pattern ends in `$` but reads an argument that is not its syscall's last declared
-- one never fires: whatever the six raw arguments, the text that FormatParsedArguments gives for
-- the syscall does not match.
pub misanchored-match_string :
    (i : ℕ) (name : String) (rule : SensitiveArgRule) (a b c d e f : ℕ) (text : Bytes)
    → get_elem? misanchored_rules i ≡ some (name, rule)
    → format_parsed_arguments name (a ∷ b ∷ c ∷ d ∷ e ∷ f ∷ []) ≡ some text
    → match_string rule text ≡ false
misanchored-match_string i name rule a b c d e f text at =
    get_elem?-All Misses misanchored_rules i misanchored-Misses at a b c d e f text
