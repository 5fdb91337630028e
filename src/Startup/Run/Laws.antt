-- ===== src/Startup/Run/Laws.antt =====
-- main.go: what `run` releases before it returns, and what it has done before it attaches.
use syscap.Base.Result.{Result, err}
use syscap.Base.{Bool, true, false, List, [], ◌∷◌, ◌++◌, map, All, ◌≡◌, ◌⊎◌}
use syscap.Startup.Run.{
  Resource, reader, Call, remove_memlock, load_program, assign_specs, start_shutdown, set_ptr_args,
  update_cgroup_id, acquire, release, RunError, Statement, attempt, plainly, defer,
}

abbrev pub is_release : Call → Bool
is_release (release r) = true
is_release _ = false

abbrev is_acquire : Call → Bool
is_acquire (acquire r) = true
is_acquire _ = false

-- What some calls have acquired on top of what was held, the last one first.
abbrev pub last_first : List Call → List Resource → List Resource
last_first [] held = held
last_first (acquire r ∷ calls) held = last_first calls (r ∷ held)
last_first (release r ∷ calls) held = last_first calls held
last_first (remove_memlock ∷ calls) held = last_first calls held
last_first (load_program ∷ calls) held = last_first calls held
last_first (assign_specs ∷ calls) held = last_first calls held
last_first (start_shutdown ∷ calls) held = last_first calls held
last_first (set_ptr_args masks ∷ calls) held = last_first calls held
last_first (update_cgroup_id id ∷ calls) held = last_first calls held

-- A run of some statements, where some resources are held before them: calls that release nothing,
-- then the shutdown goroutine's release of the reader or nothing, then one release of each thing
-- held, the last acquired first. A nil return has the goroutine's release.
pub record IsUndone (held : List Resource) (calls : List Call) (result : Result RunError (Unit {0}))
    : Type 0 where
  pub begun : List Call
  pub extra : List Call
  pub calls_are : calls ≡ begun ++ (extra ++ map release (last_first begun held))
  pub begun_holds : All (λ call. is_release call ≡ false) begun
  pub extra_is : (extra ≡ []) ⊎ (extra ≡ release reader ∷ [])
  pub nil_closed : (extra ≡ release reader ∷ []) ⊎ ((e : RunError) × (result ≡ err e))

-- Statements that defer the release of what they acquire at once, and of nothing else.
data IsPaired : List Statement → Type 0 where
  done : IsPaired []
  attempted :
      (call : Call) {more : List Statement}
      → is_acquire call ≡ false
      → is_release call ≡ false
      → IsPaired more
      → IsPaired (attempt call ∷ more)
  called :
      (call : Call) {more : List Statement}
      → is_acquire call ≡ false
      → is_release call ≡ false
      → IsPaired more
      → IsPaired (plainly call ∷ more)
  held_attempted :
      (r : Resource) {more : List Statement}
      → IsPaired more
      → IsPaired (attempt (acquire r) ∷ (defer r ∷ more))
  held_called :
      (r : Resource) {more : List Statement}
      → IsPaired more
      → IsPaired (plainly (acquire r) ∷ (defer r ∷ more))
