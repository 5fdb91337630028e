-- ===== src/Startup/Flags/Inversion.antt =====
-- main.go: what parseArgs has read where it returns a configuration.
use mathlib.Core.List.{append_assoc}
use syscap.Base.Result.{Result, ok, err, ◌>>=◌, Result-cases, ok_inj}
use syscap.Base.{
  true, false, List, [], ◌∷◌, ◌++◌, none, some, bytes_has_eq, ◌≡◌, refl, sym, ap, subst, ◌∙◌, inl,
  inr, Bytes, codes, ◌⊎◌,
}
use syscap.Startup.Flags.Laws.{
  Setting, setting_args, settings_args, apply_settings, IsValid, validate_args-ok,
}
use syscap.Startup.Flags.{
  Config, Flag, FlagError, Token, plain, terminator, wrong, flag, is_more, token_of, set_flag,
  parse_flags, validate_args, parse_args,
}
use syscap.Startup.Flags.Tokens.{IsWritten, token_of-IsWritten}

-- Settings, behind them `--` or nothing, and the configuration that they give.
pub record IsRead (cfg : Config) (args : List Bytes) (found : Config) : Type 0 where
  pub settings : List Setting
  pub ending : List Bytes
  pub is_ending : (ending ≡ []) ⊎ (ending ≡ codes "--" ∷ [])
  pub args_are : args ≡ settings_args settings ++ ending
  pub found_is : found ≡ apply_settings settings cfg

setting-IsRead :
    (cfg : Config) (s : Setting) {args more : List Bytes} {found : Config}
    → args ≡ setting_args s ++ more
    → IsRead (set_flag s.which s.value cfg) more found
    → IsRead cfg args found
setting-IsRead cfg s same read = record {
  settings = s ∷ read.settings;
  ending = read.ending;
  is_ending = read.is_ending;
  args_are =
      same
      ∙ ap (λ l. setting_args s ++ l) read.args_are
      ∙ sym (append_assoc (setting_args s) (settings_args read.settings) read.ending);
  found_is = read.found_is;
}

joined-IsRead :
    (cfg : Config) (s : Bytes) (more : List Bytes) (f : Flag) (v : Bytes) {found : Config}
    → IsWritten s (flag f (some v))
    → IsRead (set_flag f v cfg) more found
    → IsRead cfg (s ∷ more) found
joined-IsRead cfg s more f v (true, same) =
    setting-IsRead cfg (record { which = f; two_dashes = true; joined = true; value = v })
      (ap (λ l. l ∷ more) same)
joined-IsRead cfg s more f v (false, same) =
    setting-IsRead cfg (record { which = f; two_dashes = false; joined = true; value = v })
      (ap (λ l. l ∷ more) same)

separate-IsRead :
    (cfg : Config) (s v : Bytes) (more : List Bytes) (f : Flag) {found : Config}
    → IsWritten s (flag f none)
    → IsRead (set_flag f v cfg) more found
    → IsRead cfg (s ∷ (v ∷ more)) found
separate-IsRead cfg s v more f (true, same) =
    setting-IsRead cfg (record { which = f; two_dashes = true; joined = false; value = v })
      (ap (λ l. l ∷ (v ∷ more)) same)
separate-IsRead cfg s v more f (false, same) =
    setting-IsRead cfg (record { which = f; two_dashes = false; joined = false; value = v })
      (ap (λ l. l ∷ (v ∷ more)) same)

-- That a result of fs.Parse with nothing behind the flags is what the arguments say.
abbrev IsReadAs : Config → List Bytes → Result FlagError (Config × List Bytes) → Type 0
IsReadAs cfg args (err e) = Unit {0}
IsReadAs cfg args (ok (found, rest)) = is_more rest ≡ false → IsRead cfg args found

map-IsReadAs :
    (cfg cfg' : Config) (args more : List Bytes) (r : Result FlagError (Config × List Bytes))
    → ((found : Config) → IsRead cfg' more found → IsRead cfg args found)
    → IsReadAs cfg' more r
    → IsReadAs cfg args r
map-IsReadAs cfg cfg' args more (err e) h read = tt
map-IsReadAs cfg cfg' args more (ok (found, rest)) h read = λ last. h found (read last)

nothing-IsRead : (cfg : Config) → IsRead cfg [] cfg
nothing-IsRead cfg = record {
  settings = [];
  ending = [];
  is_ending = inl refl;
  args_are = refl;
  found_is = refl;
}

terminator-IsReadAs :
    (cfg : Config) (s : Bytes) (rest : List Bytes)
    → IsWritten s terminator
    → IsReadAs cfg (s ∷ rest) (ok (cfg, rest))
terminator-IsReadAs cfg s [] w = λ last. record {
  settings = [];
  ending = s ∷ [];
  is_ending = inr (ap (λ l. l ∷ []) w);
  args_are = refl;
  found_is = refl;
}
terminator-IsReadAs cfg s (next ∷ rest) w = λ last. cc last

pub parse_flags-IsReadAs :
    (cfg : Config) (args : List Bytes) → IsReadAs cfg args (parse_flags cfg args)
unfolding parse_flags
parse_flags-IsReadAs cfg [] = λ last. nothing-IsRead cfg
parse_flags-IsReadAs cfg (s ∷ []) = go (token_of s) refl (token_of-IsWritten s)
  where
    go :
        (t : Token)
        → token_of s ≡ t
        → IsWritten s t
        → IsReadAs cfg (s ∷ []) (parse_flags cfg (s ∷ []))
    go plain e w = rw (e, parse_flags) (λ last. cc last)
    go terminator e w = rw (e, parse_flags) (terminator-IsReadAs cfg s [] w)
    go (wrong e') e w = rw (e, parse_flags) tt
    go (flag f (some v)) e w =
        rw (e, parse_flags)
          (λ last. joined-IsRead cfg s [] f v w (nothing-IsRead (set_flag f v cfg)))
    go (flag f none) e w = rw (e, parse_flags) tt
parse_flags-IsReadAs cfg (s ∷ (next ∷ args)) =
    go (λ cfg'. parse_flags-IsReadAs cfg' (next ∷ args)) (λ cfg'. parse_flags-IsReadAs cfg' args)
      (token_of s) refl (token_of-IsWritten s)
  where
    go :
        ((cfg' : Config) → IsReadAs cfg' (next ∷ args) (parse_flags cfg' (next ∷ args)))
        → ((cfg' : Config) → IsReadAs cfg' args (parse_flags cfg' args))
        → (t : Token) → token_of s ≡ t
        → IsWritten s t
        → IsReadAs cfg (s ∷ (next ∷ args)) (parse_flags cfg (s ∷ (next ∷ args)))
    go keep_one take_one plain e w = rw (e, parse_flags) (λ last. cc last)
    go keep_one take_one terminator e w =
        rw (e, parse_flags) (terminator-IsReadAs cfg s (next ∷ args) w)
    go keep_one take_one (wrong e') e w = rw (e, parse_flags) tt
    go keep_one take_one (flag f (some v)) e w =
        rw (e, parse_flags)
          (map-IsReadAs cfg (set_flag f v cfg) (s ∷ (next ∷ args)) (next ∷ args)
            (parse_flags (set_flag f v cfg) (next ∷ args))
            (λ found. joined-IsRead cfg s (next ∷ args) f v w) (keep_one (set_flag f v cfg)))
    go keep_one take_one (flag f none) e w =
        rw (e, parse_flags)
          (map-IsReadAs cfg (set_flag f next cfg) (s ∷ (next ∷ args)) args
            (parse_flags (set_flag f next cfg) args) (λ found. separate-IsRead cfg s next args f w)
            (take_one (set_flag f next cfg)))

-- parseArgs returns a configuration only where the arguments are settings of its two flags, in any
-- of their spellings, with `--` behind them or nothing; the configuration is then what they set, the
-- later of two settings of a flag counting, it names a container, and its list of syscalls holds no
-- byte 9, 10 or 13 (tab, newline, carriage return).
pub parse_args-ok :
    (args : List Bytes) {cfg : Config}
    → parse_args args ≡ ok cfg
    → IsRead (record { container_id = []; target_syscall = [] }) args cfg × IsValid cfg
unfolding parse_args
parse_args-ok args {cfg} h =
    let empty : Config = record { container_id = []; target_syscall = [] } in
    elim (Result-cases (parse_flags empty args)) [
      | inl (e, bad) ↦ cc (rw (bad, parse_args) at h)
      | inr ((found, rest), parsed) ↦ elim (Result-cases (validate_args found rest)) [
        | inl (e, bad) ↦ cc (rw (bad, ◌>>=◌) at (rw (parsed, parse_args) at h))
        | inr (u, good) ↦
            let (valid, last) = validate_args-ok found rest good in
            subst (λ c. IsRead empty args c × IsValid c)
              (ok_inj (rw (good, ◌>>=◌) at (rw (parsed, parse_args) at h)))
              (subst (IsReadAs empty args) parsed (parse_flags-IsReadAs empty args) last, valid)
      ]
    ]
