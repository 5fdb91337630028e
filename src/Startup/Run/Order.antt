-- ===== src/Startup/Run/Order.antt =====
-- main.go: what `run` has done before it attaches a handler.
use syscap.Base.Result.{ok, Result-cases}
use syscap.Base.{
  any, drop, ℕ, Bool, true, false, List, [], ◌∷◌, ◌++◌, map, All, Bytes, ◌≡◌, refl, ap, ◌∙◌, inl,
  inr, Bool-cases,
}
use syscap.PtrArgs.Masks.{fill_ptr_args}
use syscap.Startup.Container.{Outside, resolve_cgroup_id}
use syscap.Startup.Flags.{Config, parse_args}
use syscap.Startup.Run.{
  Resource, objects, enter_point, exit_point, Call, remove_memlock, load_program, assign_specs,
  set_ptr_args, update_cgroup_id, acquire, release, Statement, attempt, LoopEnd, statements,
  execute, run,
}

-- The calls that come before the first handler is attached.
abbrev pub before_attach : ℕ → List Call
before_attach cgroup_id =
    remove_memlock
    ∷ (load_program
        ∷ (assign_specs
            ∷ (set_ptr_args fill_ptr_args ∷ (acquire objects ∷ (update_cgroup_id cgroup_id ∷ [])))))

-- That a handler is attached.
abbrev pub attaches : Call → Bool
attaches (acquire enter_point) = true
attaches (acquire exit_point) = true
attaches _ = false

releases_attach_nothing : (held : List Resource) → any attaches (map release held) ≡ false
releases_attach_nothing [] = refl
releases_attach_nothing (r ∷ held) = releases_attach_nothing held

module _ (answers : Call → Bool) (loop : LoopEnd) where
  -- The calls of some statements.
  abbrev calls_of : List Resource → List Statement → List Call
  calls_of held more = (execute answers loop held more).0

  -- Where a handler is attached, an attempt before it has succeeded.
  attached_later :
      (call : Call) (held : List Resource) (more : List Statement)
      → attaches call ≡ false
      → any attaches (calls_of held (attempt call ∷ more)) ≡ true
      → (calls_of held (attempt call ∷ more) ≡ call ∷ calls_of held more)
        × (any attaches (calls_of held more) ≡ true)
        × (answers call ≡ true)
  unfolding execute
  attached_later call held more plain h = elim (Bool-cases (answers call)) [
    | inl made ↦ (rw (calls_of, made) refl, rw plain at (rw (calls_of, made) at h), made)
    | inr refused ↦ cc (releases_attach_nothing held, rw (calls_of, refused) at h)
  ]

  set_up_before :
      (cgroup_id : ℕ)
      → any attaches (calls_of [] (statements cgroup_id)) ≡ true
      → (rest : List Call) × (calls_of [] (statements cgroup_id) ≡ before_attach cgroup_id ++ rest)
        × All (λ call. answers call ≡ true) (before_attach cgroup_id)
  unfolding execute
  set_up_before cgroup_id h =
      let (one, h₁, one_made) =
        attached_later remove_memlock [] (drop 1 (statements cgroup_id)) refl h in
      let (two, h₂, two_made) =
        attached_later load_program [] (drop 2 (statements cgroup_id)) refl h₁ in
      let (three, h₃, three_made) =
        attached_later assign_specs [] (drop 3 (statements cgroup_id)) refl h₂ in
      let (four, h₄, four_made) =
        attached_later (set_ptr_args fill_ptr_args) [] (drop 4 (statements cgroup_id)) refl h₃ in
      let (five, h₅, five_made) =
        attached_later (acquire objects) [] (drop 5 (statements cgroup_id)) refl h₄ in
      let (six, h₆, six_made) =
        attached_later (update_cgroup_id cgroup_id) (objects ∷ []) (drop 7 (statements cgroup_id))
          refl h₅ in
      (
        calls_of (objects ∷ []) (drop 7 (statements cgroup_id)),
        one
            ∙ ap (λ l. remove_memlock ∷ l)
                (two
                  ∙ ap (λ l. load_program ∷ l)
                      (three
                        ∙ ap (λ l. assign_specs ∷ l)
                            (four
                              ∙ ap (λ l. set_ptr_args fill_ptr_args ∷ l)
                                  (five ∙ ap (λ l. acquire objects ∷ l) six)))),
        (one_made, (two_made, (three_made, (four_made, (five_made, (six_made, tt)))))),
      )

  -- Where `run` attaches a handler, whatever fails otherwise, parseArgs has returned a configuration
  -- and the lookup its container's cgroup id, and the first six calls have succeeded, in this order:
  -- to lift the limit of locked memory, to load the program, to assign its maps, to set the masks of
  -- fillPtrArgs, to load the objects with them, and to store this cgroup id.
  pub run-attaches :
      (outside : Outside) (args : List Bytes)
      → any attaches (run answers loop outside args).0 ≡ true
      → (cfg : Config) × (cgroup_id : ℕ) × (rest : List Call) × (parse_args args ≡ ok cfg)
        × (resolve_cgroup_id outside cfg.container_id ≡ ok cgroup_id)
        × ((run answers loop outside args).0 ≡ before_attach cgroup_id ++ rest)
        × All (λ call. answers call ≡ true) (before_attach cgroup_id)
  unfolding run
  run-attaches outside args h = elim (Result-cases (parse_args args)) [
    | inl (e, bad) ↦ cc (rw (bad, run) at h)
    | inr (cfg, parsed) ↦ elim (Result-cases (resolve_cgroup_id outside cfg.container_id)) [
      | inl (e, bad) ↦ cc (rw (bad, run) at (rw (parsed, run) at h))
      | inr (cgroup_id, resolved) ↦
          let (rest, same, all_made) =
            set_up_before cgroup_id (rw (resolved, run) at (rw (parsed, run) at h)) in
          (
            cfg,
            cgroup_id,
            rest,
            parsed,
            resolved,
            rw (parsed, run) (rw (resolved, run) same),
            all_made,
          )
    ]
  ]
