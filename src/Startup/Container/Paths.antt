-- ===== src/Startup/Container/Paths.antt =====
-- path/filepath: Join and Clean on a rooted path.
use mathlib.Core.List.{reverse, reverse-append, reverse-reverse, append-nil, append_assoc}
use syscap.Base.{
  none_is, ◌||◌, List, [], ◌∷◌, ◌++◌, if◌then◌else◌, ◌==◌, bytes_has_eq, Bytes, codes, split, ◌≡◌,
  refl, sym, ap, ◌∙◌, All, false, eqb,
}

abbrev pub parent : List Bytes → List Bytes
parent [] = []
parent (part ∷ kept) = kept

abbrev pub or_root : Bytes → Bytes
or_root [] = codes "/"
or_root (c ∷ s) = c ∷ s

-- One more element behind those kept so far, the last one first: `.` and an empty one change nothing,
-- and `..` takes its parent away, if there is one.
unfoldable pub clean_part : List Bytes → Bytes → List Bytes
clean_part kept part =
    if part == [] || part == codes "."
    then kept
    else if part == codes ".."
    then parent kept
    else part ∷ kept

unfoldable pub clean_from : List Bytes → List Bytes → List Bytes
unfolding clean_part
clean_from kept [] = kept
clean_from kept (part ∷ parts) = clean_from (clean_part kept part) parts

-- The elements, each behind a `/`.
unfoldable pub rooted : List Bytes → Bytes
rooted [] = []
rooted (part ∷ parts) = codes "/" ++ (part ++ rooted parts)

-- filepath.Clean of a path that begins with `/`.
unfoldable pub clean : Bytes → Bytes
clean path = or_root (rooted (reverse (clean_from [] (split b'/' path))))

-- filepath.Join of a rooted path and a text that is not empty.
unfoldable pub join_path : Bytes → Bytes → Bytes
join_path dir part = clean (dir ++ (codes "/" ++ part))

-- An element that Clean leaves as it is.
pub record IsElement (part : Bytes) : Type 0 where
  pub no_dot : (part == [] || part == codes ".") ≡ false
  pub no_parent : (part == codes "..") ≡ false
  pub no_slash : All (λ c. eqb c b'/' ≡ false) part

split-element : (part : Bytes) → All (λ c. eqb c b'/' ≡ false) part → split b'/' part ≡ part ∷ []
unfolding split
split-element [] h = refl
split-element (c ∷ part) h = rw (h.0) (rw (split-element part h.1))

split-element_slash :
    (part rest : Bytes)
    → All (λ c. eqb c b'/' ≡ false) part
    → split b'/' (part ++ (b'/' ∷ rest)) ≡ part ∷ split b'/' rest
unfolding split
split-element_slash [] rest h = refl
split-element_slash (c ∷ part) rest h = rw (h.0) (rw (split-element_slash part rest h.1))

abbrev NoSlash : List Bytes → Type 0
NoSlash = All (All (λ c. eqb c b'/' ≡ false))

split-rooted :
    (part : Bytes) (parts : List Bytes)
    → All (λ c. eqb c b'/' ≡ false) part
    → NoSlash parts
    → split b'/' (part ++ rooted parts) ≡ part ∷ parts
unfolding rooted
split-rooted part [] h k = rw (append-nil part) (split-element part h)
split-rooted part (next ∷ parts) h k =
    split-element_slash part (next ++ rooted parts) h
    ∙ ap (◌∷◌ part) (split-rooted next parts k.0 k.1)

clean_from-elements :
    (kept parts : List Bytes) → All IsElement parts → clean_from kept parts ≡ reverse parts ++ kept
unfolding clean_from
clean_from-elements kept [] h = refl
clean_from-elements kept (part ∷ parts) h =
    ap (λ k. clean_from k parts) (clean_part_element kept part h.0)
    ∙ clean_from-elements (part ∷ kept) parts h.1
    ∙ sym (append_assoc (reverse parts) (part ∷ []) kept)
    ∙ ap (λ k. k ++ kept) (sym (reverse-append (part ∷ []) parts))
  where
    clean_part_element :
        (kept : List Bytes) (part : Bytes) → IsElement part → clean_part kept part ≡ part ∷ kept
    clean_part_element kept part e = unfold clean_part in rw e.no_dot (rw e.no_parent)

elements-NoSlash : (parts : List Bytes) → All IsElement parts → NoSlash parts
elements-NoSlash [] h = tt
elements-NoSlash (part ∷ parts) h = (h.0.no_slash, elements-NoSlash parts h.1)

-- Joining a path of such elements to /sys/fs/cgroup puts it behind.
pub join_path-rooted :
    (parts : List Bytes)
    → All IsElement parts
    → join_path (codes "/sys/fs/cgroup") (rooted parts) ≡ codes "/sys/fs/cgroup" ++ rooted parts
unfolding join_path clean rooted clean_from clean_part
join_path-rooted parts h =
    let dirs = codes "sys" ∷ (codes "fs" ∷ (codes "cgroup" ∷ ([] ∷ parts))) in
    let kept = codes "cgroup" ∷ (codes "fs" ∷ (codes "sys" ∷ [])) in
    ap (λ ps. or_root (rooted (reverse (clean_from [] ps))))
      (split-rooted [] dirs tt (
        none_is (λ c. eqb c b'/') (codes "sys") refl,
        (
          none_is (λ c. eqb c b'/') (codes "fs") refl,
          (none_is (λ c. eqb c b'/') (codes "cgroup") refl, (tt, elements-NoSlash parts h)),
        ),
      ))
    ∙ ap (λ ps. or_root (rooted (reverse ps))) (clean_from-elements kept parts h)
    ∙ ap (λ ps. or_root (rooted ps)) (reverse-append (reverse parts) kept)
    ∙ ap (λ ps. or_root (rooted (reverse kept ++ ps))) (reverse-reverse parts)
