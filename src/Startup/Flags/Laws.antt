-- ===== src/Startup/Flags/Laws.antt =====
-- main.go: what parseArgs accepts, and that it reads every way to write the two flags.
use syscap.Base.{
  arith, ℕ, All, ◌↔◌, ◌≢◌, Bool, true, false, List, [], ◌∷◌, ◌++◌, none, some, if◌then◌else◌, ◌==◌,
  bytes_has_eq, any, ◌≡◌, refl, ◌∙◌, inl, inr, Bool-cases, Bytes, codes,
}
use syscap.Base.Result.{ok, ◌>>=◌}
use syscap.Startup.Flags.{
  Config, Flag, container_id, target_syscall, flag, breaks_line, is_more, token_of, set_flag,
  parse_flags, validate_args, parse_args,
}

-- A byte that is no tab, newline or carriage return.
abbrev pub KeepsLine : ℕ → Type 0
KeepsLine c = (c ≢ 9) × (c ≢ 10) × (c ≢ 13)

-- What `run` relies on.
pub record IsValid (cfg : Config) : Type 0 where
  pub container_id : cfg.container_id ≢ []
  pub target_syscall : All KeepsLine cfg.target_syscall

KeepsLine-iff : (c : ℕ) → (breaks_line c ≡ false) ↔ KeepsLine c
KeepsLine-iff c = ground arith

pub keeps_lines_iff : (s : Bytes) → (any breaks_line s ≡ false) ↔ All KeepsLine s
keeps_lines_iff [] = (λ h. tt, λ h. refl)
keeps_lines_iff (c ∷ s) = elim (Bool-cases (breaks_line c)) [
  | inl breaks ↦ (λ h. cc (rw breaks at h), λ h. cc (breaks, (KeepsLine-iff c).1 h.0))
  | inr keeps ↦ (
    λ h. ((KeepsLine-iff c).0 keeps, (keeps_lines_iff s).0 (rw keeps at h)),
    λ h. rw keeps ((keeps_lines_iff s).1 h.1),
  )
]

pub is_named : (s : Bytes) → (s == []) ≡ false → s ≢ []
is_named [] h = cc h
is_named (c ∷ s) h = λ e. cc e

named_not_empty : (s : Bytes) → s ≢ [] → (s == []) ≡ false
named_not_empty [] h = absurd (h refl)
named_not_empty (c ∷ s) h = refl

pub validate_args-ok :
    (cfg : Config) (rest : List Bytes)
    → validate_args cfg rest ≡ ok tt
    → IsValid cfg × (is_more rest ≡ false)
unfolding validate_args
validate_args-ok cfg rest h = elim (Bool-cases (cfg.container_id == [])) [
  | inl empty ↦ cc (rw empty at h)
  | inr named ↦ elim (Bool-cases (any breaks_line cfg.target_syscall)) [
    | inl broken ↦ cc (rw broken at (rw named at h))
    | inr whole ↦ elim (Bool-cases (is_more rest)) [
      | inl more ↦ cc (rw more at (rw whole at (rw named at h)))
      | inr last ↦ (
        record {
          container_id = is_named cfg.container_id named;
          target_syscall = (keeps_lines_iff cfg.target_syscall).0 whole;
        },
        last,
      )
    ]
  ]
]

validate_args_valid : (cfg : Config) → IsValid cfg → validate_args cfg [] ≡ ok tt
unfolding validate_args
validate_args_valid cfg v =
    rw (named_not_empty cfg.container_id v.container_id)
      (rw ((keeps_lines_iff cfg.target_syscall).1 v.target_syscall))

-- One flag on the command line: with one dash or two, and its value behind `=` or as the next argument.
pub record Setting : Type 0 where
  pub which : Flag
  pub two_dashes : Bool
  pub joined : Bool
  pub value : Bytes

abbrev pub flag_text : Flag → Bytes
flag_text container_id = codes "container-id"
flag_text target_syscall = codes "target-syscall"

abbrev pub setting_args : Setting → List Bytes
setting_args s =
    let name = (if s.two_dashes then codes "--" else codes "-") ++ flag_text s.which in
    if s.joined then (name ++ (codes "=" ++ s.value)) ∷ [] else name ∷ (s.value ∷ [])

abbrev pub settings_args : List Setting → List Bytes
settings_args [] = []
settings_args (s ∷ ss) = setting_args s ++ settings_args ss

-- The later of two settings of a flag counts.
abbrev pub apply_settings : List Setting → Config → Config
apply_settings [] cfg = cfg
apply_settings (s ∷ ss) cfg = apply_settings ss (set_flag s.which s.value cfg)

parse_joined :
    (cfg : Config) (s : Bytes) (args : List Bytes) {f : Flag} {value : Bytes}
    → token_of s ≡ flag f (some value)
    → parse_flags cfg (s ∷ args) ≡ parse_flags (set_flag f value cfg) args
unfolding parse_flags
parse_joined cfg s [] h = rw (h, parse_flags)
parse_joined cfg s (next ∷ args) h = rw (h, parse_flags)

parse_separate :
    (cfg : Config) (s value : Bytes) (args : List Bytes) {f : Flag}
    → token_of s ≡ flag f none
    → parse_flags cfg (s ∷ (value ∷ args)) ≡ parse_flags (set_flag f value cfg) args
unfolding parse_flags
parse_separate cfg s value args h = rw (h, parse_flags)

parse_setting :
    (cfg : Config) (which : Flag) (two_dashes joined : Bool) (value : Bytes) (args : List Bytes)
    → parse_flags cfg (
        setting_args
          (record { which = which; two_dashes = two_dashes; joined = joined; value = value })
        ++ args)
      ≡ parse_flags (set_flag which value cfg) args
unfolding token_of
parse_setting cfg container_id true true value args = parse_joined cfg _ args refl
parse_setting cfg container_id true false value args = parse_separate cfg _ value args refl
parse_setting cfg container_id false true value args = parse_joined cfg _ args refl
parse_setting cfg container_id false false value args = parse_separate cfg _ value args refl
parse_setting cfg target_syscall true true value args = parse_joined cfg _ args refl
parse_setting cfg target_syscall true false value args = parse_separate cfg _ value args refl
parse_setting cfg target_syscall false true value args = parse_joined cfg _ args refl
parse_setting cfg target_syscall false false value args = parse_separate cfg _ value args refl

parse_flags-settings_args :
    (cfg : Config) (settings : List Setting)
    → parse_flags cfg (settings_args settings) ≡ ok (apply_settings settings cfg, [])
parse_flags-settings_args cfg [] = unfold parse_flags in refl
parse_flags-settings_args cfg (s ∷ ss) =
    parse_setting cfg s.which s.two_dashes s.joined s.value (settings_args ss)
    ∙ parse_flags-settings_args (set_flag s.which s.value cfg) ss

-- parseArgs reads every way to write the flags, in any order and with repeats: with one dash or two,
-- and the value behind `=` or as the next argument; the last value of a flag counts. It returns that
-- configuration where it is valid.
pub parse_args-settings_args :
    (settings : List Setting)
    → IsValid (apply_settings settings (record { container_id = []; target_syscall = [] }))
    → parse_args (settings_args settings)
      ≡ ok (apply_settings settings (record { container_id = []; target_syscall = [] }))
unfolding parse_args
parse_args-settings_args settings v =
    rw
      (
        parse_flags-settings_args (record { container_id = []; target_syscall = [] }) settings,
        parse_args,
      )
      (rw (validate_args_valid _ v, ◌>>=◌))
