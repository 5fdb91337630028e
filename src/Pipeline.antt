-- ===== src/Pipeline.antt =====
-- From the handlers of bpf/program.bpf.c, with the table that fillPtrArgs gives them, through the
-- bytes of the ring buffer to the read loop of main.go.
pub mod Examples
use syscap.Base.{
  ℕ, suc, ◌^◌, Bool, true, false, not, ◌||◌, ◌&&◌, List, [], ◌∷◌, ◌++◌, map, some, ◌≡◌, refl, sym,
  ap, subst, ◌∙◌, inl, inr, arith, Bool-cases, bit_and, zero-and, if◌then◌else◌, ◌==◌, nat_eq,
  eqb_iff, contains, all, All, get_or, Bytes,
}
use syscap.Event.{Event}
use syscap.Kernel.Reads.{Masked}
use syscap.Kernel.Invariant.{IsSent, Reach, Reach-IsSent}
use syscap.Kernel.{Kernel, is_pointer}
use syscap.Monitor.Loop.{Monitor, started, handle_events}
use syscap.Monitor.Total.{HasSix, handle_events_total}
use syscap.PtrArgs.Lost.{lost_syscalls}
use syscap.PtrArgs.Masks.{fill_ptr_args}
use syscap.Reader.Laws.{run_loop-handle_events}
use syscap.Reader.{Read, sample, closed, returned_nil, run_loop}
use syscap.Wire.RoundTrip.{IsEvent}
use syscap.Wire.{event_bytes}

All-map_fst {ℓ κ μ} :
    {A : Type ℓ} {B : Type κ} (P : A → Type μ) (xs : List (A × B))
    → All P (map (λ (a, b). a) xs)
    → All (λ (a, b). P a) xs
All-map_fst P [] h = tt
All-map_fst P ((a, b) ∷ xs) h = (h.0, All-map_fst P xs h.1)

weaken-All {ℓ κ μ} :
    {A : Type ℓ} {P : A → Type κ} {Q : A → Type μ}
    → ((a : A) → P a → Q a)
    → (xs : List A) → All P xs
    → All Q xs
weaken-All f [] h = tt
weaken-All f (x ∷ xs) h = (f x h.0, weaken-All f xs h.1)

IsEvent-HasSix : (e : Event) → IsEvent e → HasSix e
IsEvent-HasSix e h = record { args = h.args; deref_args = h.deref_args }

module _ (byte_slice_to_string : Bytes → Bytes) (target : Bytes) (cgroup_id : ℕ) where
  -- The events that the kernel side has submitted after any calls of its two handlers, delivered as
  -- samples that begin with their bytes, lead the read loop to a nil return once the ring buffer
  -- is closed, with the state that these events give: none of them is refused, lost or changed.
  pub run_loop-Reach :
      {k : Kernel} (delivered : List (Event × Bytes))
      → Reach cgroup_id fill_ptr_args k
      → map (λ (e, rest). e) delivered ≡ k.submitted
      → (m : Monitor) × (handle_events byte_slice_to_string target k.submitted started ≡ some m)
        × (run_loop byte_slice_to_string target
              (map (λ (e, rest). sample (event_bytes e ++ rest)) delivered ++ closed ∷ [])
              started
            ≡ returned_nil m)
  unfolding run_loop
  run_loop-Reach {k} delivered r same =
      let fits : All IsEvent k.submitted =
        weaken-All (λ e (h : IsSent cgroup_id fill_ptr_args e). h.event) k.submitted
          (Reach-IsSent cgroup_id fill_ptr_args r) in
      let (m, done) =
        handle_events_total byte_slice_to_string target k.submitted started
          (weaken-All IsEvent-HasSix k.submitted fits) in
      (
        m,
        done,
        run_loop-handle_events byte_slice_to_string target delivered (closed ∷ []) started
            (All-map_fst IsEvent delivered (subst (All IsEvent) (sym same) fits))
            (ap (λ events. handle_events byte_slice_to_string target events started) same ∙ done),
      )

all-contains :
    (p : ℕ → Bool) (xs : List ℕ) (a : ℕ) → all p xs ≡ true → contains a xs ≡ true → p a ≡ true
all-contains p [] a h k = cc
all-contains p (x ∷ xs) a h k = elim (Bool-cases (x == a)) [
  | inl same ↦ ground (arith, eqb_iff x a)
  | inr other ↦ all-contains p xs a (ground arith) (ground arith)
]

lost_syscalls_unmasked : all (λ id. get_or fill_ptr_args id 0 == 0) lost_syscalls ≡ true
unfolding fill_ptr_args lost_syscalls
lost_syscalls_unmasked = refl

Masked-zero : (i : ℕ) (words : List ℕ) → Masked 0 i words → All (λ w. w ≡ 0) words
unfolding Masked is_pointer
Masked-zero i [] h = tt
Masked-zero i (w ∷ words) h = (h.0 (rw (zero-and (2 ^ i))), Masked-zero (suc i) words h.1)

IsSent-lost :
    (cgroup_id : ℕ) (e : Event)
    → IsSent cgroup_id fill_ptr_args e
    → contains e.syscall_id lost_syscalls ≡ true
    → All (λ w. w ≡ 0) e.deref_args
IsSent-lost cgroup_id e h lost =
    let unmasked =
      all-contains (λ id. get_or fill_ptr_args id 0 == 0) lost_syscalls e.syscall_id
        lost_syscalls_unmasked lost in
    Masked-zero 0 e.deref_args (
      subst (λ mask. Masked mask 0 e.deref_args)
        ((eqb_iff (get_or fill_ptr_args e.syscall_id 0) 0).0 unmasked) h.masked)

-- With the table of fillPtrArgs, no event of the twenty lost syscalls ever carries a word that was
-- read through a pointer: whatever calls are made, all its dereferenced words are 0.
pub Reach-lost_syscalls :
    (cgroup_id : ℕ) {k : Kernel}
    → Reach cgroup_id fill_ptr_args k
    → All
        (λ (e : Event). contains e.syscall_id lost_syscalls ≡ true → All (λ w. w ≡ 0) e.deref_args)
        k.submitted
Reach-lost_syscalls cgroup_id {k} r =
    weaken-All (IsSent-lost cgroup_id) k.submitted (Reach-IsSent cgroup_id fill_ptr_args r)
