-- ===== src/Startup/Container.antt =====
-- main.go: extractPID, resolveCgroupPath and resolveCgroupID. What stands outside the program is a
-- record of functions.
pub mod Paths
pub mod Numbers
pub mod Laws
use mathlib.Core.Option
use syscap.Base.{
  ℕ, zero, suc, ◌+◌, ◌-◌, ◌*◌, ◌^◌, Bool, true, false, not, ◌&&◌, ◌||◌, List, [], ◌∷◌, ◌++◌, Option,
  none, some, if◌then◌else◌, eqb, ltb, leb, ◌==◌, all, bytes_has_eq, Bytes, codes, ℤ, pos, negsuc,
  is_digit, trim_space, signed_decimal,
}
use syscap.Base.Result.{Result, ok, err, ◌>>=◌}
use Paths.{join_path}

-- docker inspect, the content of a file, and os.Stat: a path may not be there, and its Sys() may be
-- no *syscall.Stat_t.
pub record Outside : Type 0 where
  pub inspect : Bytes → Option Bytes
  pub content : Bytes → Option Bytes
  pub stat : Bytes → Option (Option ℕ)

-- `panicked` is an index out of range.
pub data ContainerError : Type 0 where
  empty_id inspect_failed bad_pid open_failed read_failed stat_failed no_stat_t panicked :
      ContainerError

-- Decimal digits, on top of `n`; `none` where another byte stands.
unfoldable pub digits_from : ℕ → Bytes → Option ℕ
digits_from n [] = some n
digits_from n (c ∷ s) =
    let rest = digits_from (n * 10 + (c - b'0')) s in if is_digit c then rest else none

-- The number behind a sign: at least one digit, and inside int64.
unfoldable pub unsigned : ℕ → (ℕ → ℤ) → Bytes → Option ℤ
unsigned limit signed [] = none
unsigned limit signed (c ∷ s) = elim (digits_from 0 (c ∷ s)) [
  | none ↦ none
  | some n ↦ if leb n limit then some (signed n) else none
]

abbrev pub negative : ℕ → ℤ
negative zero = pos 0
negative (suc n) = negsuc n

-- strconv.Atoi
unfoldable pub atoi : Bytes → Option ℤ
atoi [] = none
atoi (c ∷ s) =
    if eqb c b'-'
    then unsigned (2 ^ 63) negative s
    else if eqb c b'+'
    then unsigned (2 ^ 63 - 1) pos s
    else unsigned (2 ^ 63 - 1) pos (c ∷ s)

-- ReadString('\n'): the text up to the first newline, with it; `none` where there is none.
unfoldable pub read_line : Bytes → Option Bytes
read_line [] = none
read_line (c ∷ s) =
    let rest = read_line s in
    if eqb c b'\n' then some (c ∷ []) else Option.map (λ line. c ∷ line) rest

-- strings.Cut at one byte: what stands behind it.
unfoldable pub behind : ℕ → Bytes → Option Bytes
behind sep [] = none
behind sep (c ∷ s) = let rest = behind sep s in if eqb c sep then some s else rest

-- `SplitN(line, ":", 3)[2]`: what stands behind the second colon.
unfoldable pub third_part : Bytes → Option Bytes
unfolding behind
third_part line = elim (behind b':' line) [ none ↦ none | some rest ↦ behind b':' rest ]

module _ (outside : Outside) where
  unfoldable pub extract_pid : Bytes → Result ContainerError ℤ
  extract_pid container =
      if container == [] then err empty_id else elim (outside.inspect container) [
        | none ↦ err inspect_failed
        | some out ↦ elim (atoi (trim_space out)) [ none ↦ err bad_pid | some pid ↦ ok pid ]
      ]

  -- filepath.Join("/proc", strconv.Itoa(pid), "cgroup") has nothing to clean.
  abbrev pub cgroup_file : ℤ → Bytes
  cgroup_file pid = codes "/proc/" ++ (signed_decimal pid ++ codes "/cgroup")

  -- The path of a first line.
  unfoldable pub path_in_line : Bytes → Result ContainerError Bytes
  path_in_line line = elim (third_part line) [
    | none ↦ err panicked
    | some part ↦ ok (trim_space (join_path (codes "/sys/fs/cgroup") part))
  ]

  unfoldable pub resolve_cgroup_path : Bytes → Result ContainerError Bytes
  resolve_cgroup_path container = extract_pid container >>= λ pid.
      elim (outside.content (cgroup_file pid)) [
        | none ↦ err open_failed
        | some content ↦ elim (read_line content) [
          | none ↦ err read_failed
          | some line ↦ path_in_line line
        ]
      ]

  unfoldable pub resolve_cgroup_id : Bytes → Result ContainerError ℕ
  resolve_cgroup_id container = resolve_cgroup_path container >>= λ path. elim (outside.stat path) [
    | none ↦ err stat_failed
    | some none ↦ err no_stat_t
    | some (some inode) ↦ ok inode
  ]
