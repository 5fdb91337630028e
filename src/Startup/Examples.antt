-- ===== src/Startup/Examples.antt =====
-- main.go: a command line, and a container whose process is 4211.
use syscap.Base.{
  Bool, true, false, List, [], ◌∷◌, ◌++◌, none, some, if◌then◌else◌, ◌≡◌, refl, arith, codes, ◌==◌,
  bytes_has_eq, none_is, is_space, eqb, decimal, any, ℕ, All,
}
use syscap.Base.Result.{ok}
use syscap.Startup.Run.Order.{attaches, before_attach, run-attaches}
use syscap.Startup.Run.{Call, acquire, reader, reader_closed, execute, run}
use syscap.Startup.Container.Laws.{resolve_cgroup_id_lem}
use syscap.Startup.Container.Paths.{IsElement, rooted}
use syscap.Startup.Container.{Outside, resolve_cgroup_id}
use syscap.Startup.Flags.Laws.{
  IsValid, Setting, settings_args, is_named, keeps_lines_iff, parse_args-settings_args,
}
use syscap.Startup.Flags.Inversion.{IsRead, parse_args-ok}
use syscap.Startup.Flags.{Config, container_id, target_syscall, set_flag, parse_args}

abbrev two_flags : List Setting
two_flags =
    record { which = target_syscall; two_dashes = true; joined = false; value = codes "read" }
    ∷ (record { which = container_id; two_dashes = false; joined = true; value = codes "abc" }
        ∷ (record {
          which = target_syscall;
          two_dashes = true;
          joined = true;
          value = codes "open,close";
        }
            ∷ []))

abbrev configured : Config
configured = record { container_id = codes "abc"; target_syscall = codes "open,close" }

configured-IsValid : IsValid configured
configured-IsValid = record {
  container_id = is_named (codes "abc") refl;
  target_syscall = (keeps_lines_iff (codes "open,close")).0 refl;
}

parse_args-settings_args_example : parse_args (settings_args two_flags) ≡ ok configured
unfolding set_flag
parse_args-settings_args_example = parse_args-settings_args two_flags configured-IsValid

parse_args-ok_example :
    IsRead (record { container_id = []; target_syscall = [] }) (settings_args two_flags) configured
    × IsValid configured
unfolding set_flag
parse_args-ok_example =
    parse_args-ok (settings_args two_flags) (parse_args-settings_args two_flags configured-IsValid)

-- docker prints the process id; the one file and the one directory are there.
abbrev one_container : Outside
one_container = record {
  inspect = λ container. some (decimal 4211 ++ b'\n' ∷ []);
  content = λ path.
      if path == codes "/proc/4211/cgroup"
      then some
          (codes "0::" ++ (rooted (codes "docker" ∷ (codes "abc" ∷ [])) ++ (b'\n' ∷ codes "more")))
      else none;
  stat = λ path. if path == codes "/sys/fs/cgroup/docker/abc" then some (some 77) else none;
}

docker-IsElement : IsElement (codes "docker")
docker-IsElement = record {
  no_dot = refl;
  no_parent = refl;
  no_slash = none_is (λ c. eqb c b'/') (codes "docker") refl;
}

abc-IsElement : IsElement (codes "abc")
abc-IsElement = record {
  no_dot = refl;
  no_parent = refl;
  no_slash = none_is (λ c. eqb c b'/') (codes "abc") refl;
}

resolve_cgroup_id_lem_example : resolve_cgroup_id one_container (codes "abc") ≡ ok 77
unfolding decimal rooted
resolve_cgroup_id_lem_example =
    resolve_cgroup_id_lem one_container (codes "abc") 4211 77 (codes "docker" ∷ []) (codes "abc")
      (codes "more") refl (omega arith) refl (docker-IsElement, tt) abc-IsElement
      (none_is is_space (codes "docker") refl, (none_is is_space (codes "abc") refl, tt)) refl refl

-- The reader cannot be created.
abbrev no_reader : Call → Bool
no_reader (acquire reader) = false
no_reader call = true

no_reader-attaches :
    any attaches (run no_reader reader_closed one_container (settings_args two_flags)).0 ≡ true
unfolding run set_flag decimal rooted
no_reader-attaches =
    rw (parse_args-settings_args two_flags configured-IsValid, run)
      (rw
        (
          resolve_cgroup_id_lem one_container (codes "abc") 4211 77 (codes "docker" ∷ [])
              (codes "abc") (codes "more") refl (omega arith) refl (docker-IsElement, tt)
              abc-IsElement
              (none_is is_space (codes "docker") refl, (none_is is_space (codes "abc") refl, tt))
              refl refl,
          run,
        )
        (unfold execute in refl))

run-attaches_example :
    (cfg : Config) × (cgroup_id : ℕ) × (rest : List Call) × (parse_args (settings_args two_flags)
      ≡ ok cfg)
    × (resolve_cgroup_id one_container cfg.container_id ≡ ok cgroup_id)
    × ((run no_reader reader_closed one_container (settings_args two_flags)).0
        ≡ before_attach cgroup_id ++ rest)
    × All (λ call. no_reader call ≡ true) (before_attach cgroup_id)
run-attaches_example =
    run-attaches no_reader reader_closed one_container (settings_args two_flags) no_reader-attaches
