-- ===== src/Startup/Flags.antt =====
-- main.go: Config, parseArgs and validateArgs, and what the flag package does with two string flags
-- under flag.ContinueOnError.
pub mod Laws
pub mod Tokens
pub mod Inversion
use syscap.Base.{
  ℕ, zero, suc, Bool, true, false, not, ◌||◌, List, [], ◌∷◌, Option, none, some, if◌then◌else◌, eqb,
  ◌==◌, any, bytes_has_eq, Bytes, codes,
}
use syscap.Base.Result.{Result, ok, err, ◌>>=◌}

pub record Config : Type 0 where
  pub container_id : Bytes
  pub target_syscall : Bytes

pub data Flag : Type 0 where
  container_id target_syscall : Flag

-- The errors of fs.Parse.
pub data FlagError : Type 0 where
  bad_syntax not_defined help_wanted needs_argument : FlagError

pub data ArgsError : Type 0 where
  failed_to_parse : FlagError → ArgsError
  no_container_id white_space unexpected_positional : ArgsError

-- An argument as the flag package reads it: it ends the flags, as a plain one or as `--`; or it is
-- a flag, with a value where it has a `=`; or it is wrong.
pub data Token : Type 0 where
  plain terminator : Token
  wrong : FlagError → Token
  flag : Flag → Option Bytes → Token

-- strings.Cut at `=`.
unfoldable pub cut_value : Bytes → Bytes × Option Bytes
cut_value [] = ([], none)
cut_value (c ∷ s) =
    let (name, value) = cut_value s in if eqb c b'=' then ([], some s) else (c ∷ name, value)

unfoldable pub named_flag : Bytes → Option Bytes → Token
named_flag name value =
    if name == codes "container-id"
    then flag container_id value
    else if name == codes "target-syscall"
    then flag target_syscall value
    else if name == codes "help" || name == codes "h"
    then wrong help_wanted
    else wrong not_defined

-- What stands behind the dashes.
unfoldable pub after_dashes : Bytes → Token
unfolding named_flag cut_value
after_dashes [] = wrong bad_syntax
after_dashes (c ∷ s) =
    let (name, value) = cut_value (c ∷ s) in
    if eqb c b'-' || eqb c b'=' then wrong bad_syntax else named_flag name value

unfoldable pub after_dash : Bytes → Token
unfolding after_dashes
after_dash [] = plain
after_dash (c ∷ s) =
    if not (eqb c b'-')
    then after_dashes (c ∷ s)
    else if s == []
    then terminator
    else after_dashes s

unfoldable pub token_of : Bytes → Token
unfolding after_dash
token_of [] = plain
token_of (c ∷ s) = if eqb c b'-' then after_dash s else plain

unfoldable pub set_flag : Flag → Bytes → Config → Config
set_flag container_id value cfg = record cfg { container_id = value }
set_flag target_syscall value cfg = record cfg { target_syscall = value }

-- fs.Parse: the flags, and what fs.Args() gives behind them. A flag with no `=` takes the next
-- argument.
unfoldable pub parse_flags : Config → List Bytes → Result FlagError (Config × List Bytes)
unfolding token_of set_flag
parse_flags cfg [] = ok (cfg, [])
parse_flags cfg (s ∷ []) = elim (token_of s) [
  | plain ↦ ok (cfg, s ∷ [])
  | terminator ↦ ok (cfg, [])
  | wrong e ↦ err e
  | flag f (some v) ↦ ok (set_flag f v cfg, [])
  | flag f none ↦ err needs_argument
]
parse_flags cfg (s ∷ (next ∷ args)) = elim (token_of s) [
  | plain ↦ ok (cfg, s ∷ (next ∷ args))
  | terminator ↦ ok (cfg, next ∷ args)
  | wrong e ↦ err e
  | flag f (some v) ↦ parse_flags (set_flag f v cfg) (next ∷ args)
  | flag f none ↦ parse_flags (set_flag f next cfg) args
]

-- strings.ContainsAny(s, "\t\n\r")
abbrev pub breaks_line : ℕ → Bool
breaks_line c = eqb c b'\t' || (eqb c b'\n' || eqb c b'\r')

-- len(rest) != 0
abbrev pub is_more : List Bytes → Bool
is_more [] = false
is_more (arg ∷ rest) = true

unfoldable pub validate_args : Config → List Bytes → Result ArgsError (Unit {0})
validate_args cfg rest =
    if cfg.container_id == []
    then err no_container_id
    else if any breaks_line cfg.target_syscall
    then err white_space
    else if is_more rest
    then err unexpected_positional
    else ok tt

unfoldable pub parse_args : List Bytes → Result ArgsError Config
unfolding parse_flags validate_args
parse_args args = elim (parse_flags (record { container_id = []; target_syscall = [] }) args) [
  | err e ↦ err (failed_to_parse e)
  | ok (cfg, rest) ↦ validate_args cfg rest >>= λ _. ok cfg
]
