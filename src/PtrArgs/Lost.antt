-- ===== src/PtrArgs/Lost.antt =====
-- ebpf.go: the masks of fillPtrArgs against those that the declared arguments ask for.
use syscap.Base.{
  ℕ, Bool, true, false, not, String, List, [], ◌∷◌, some, ◌≡◌, ◌&&◌, refl, arith, if◌then◌else◌,
  ◌==◌, nat_eq, string_eq, contains, all, lookup, get_or, ◌↔◌,
}
use syscap.PtrArgs.Masks.{fill_ptr_args, pointer_mask}
use syscap.Syscall.RoundTrip.{all-lookup}
use syscap.Syscall.{syscall_table}

-- The syscalls whose pointer arguments fillPtrArgs leaves out, from setitimer to futex_wait.
unfoldable pub lost_syscalls : List ℕ
lost_syscalls =
    38 ∷ 71 ∷ 98 ∷ 129 ∷ 138 ∷ 142 ∷ 143 ∷ 176 ∷ 203 ∷ 209 ∷ 230 ∷ 243 ∷ 266 ∷ 269 ∷ 295 ∷ 298 ∷ 314
    ∷ 327 ∷ 441 ∷ 455 ∷ []

abbrev agrees : ℕ × String → Bool
agrees (id, name) =
    if contains id lost_syscalls
    then get_or fill_ptr_args id 0 == 0 && not (pointer_mask name == 0)
    else get_or fill_ptr_args id 0 == pointer_mask name

all-agrees : all agrees syscall_table ≡ true
unfolding syscall_table lost_syscalls fill_ptr_args pointer_mask
all-agrees = refl

agree_iff :
    (lost : Bool) (got want : ℕ)
    → (if lost then got == 0 && not (want == 0) else got == want) ≡ true
    → (got ≡ want) ↔ (lost ≡ false)
agree_iff true got want h = (λ e. ground arith, λ e. cc)
agree_iff false got want h = (λ e. refl, λ e. ground arith)

-- Of the syscalls with a name, fillPtrArgs gives the mask that the generator computes from the
-- declared arguments to all but the twenty of lost_syscalls, and to those it does not.
pub fill_ptr_args-eq-mask_iff :
    (id : ℕ) (name : String)
    → lookup id syscall_table ≡ some name
    → (get_or fill_ptr_args id 0 ≡ pointer_mask name) ↔ (contains id lost_syscalls ≡ false)
fill_ptr_args-eq-mask_iff id name h =
    agree_iff (contains id lost_syscalls) (get_or fill_ptr_args id 0) (pointer_mask name)
      (all-lookup agrees syscall_table id all-agrees h)
