-- ===== src/Startup/Container/Laws.antt =====
-- main.go: the container's process id, cgroup path and cgroup id from what docker and /proc give.
use mathlib.Core.List.{append-nil, append_assoc}
use syscap.Base.{
  none_is, ℕ, ◌^◌, ◌<◌, true, false, ◌||◌, List, [], ◌∷◌, ◌++◌, some, eqb, ◌==◌, bytes_has_eq,
  Bytes, codes, pos, ◌≡◌, refl, sym, ap, ◌∙◌, arith, All, All-append, is_digit, Digits, decimal,
  signed_decimal, decimal-Digits, NoSpace, is_space, trim_space, trim_space_line,
}
use syscap.Startup.Container.Numbers.{atoi-decimal}
use syscap.Base.Result.{ok, ◌>>=◌}
use syscap.Startup.Container.Paths.{rooted, join_path, IsElement, join_path-rooted}
use syscap.Startup.Container.{
  Outside, read_line, behind, third_part, extract_pid, path_in_line, resolve_cgroup_path,
  resolve_cgroup_id,
}

digit_no_space : (c : ℕ) → is_digit c ≡ true → is_space c ≡ false
digit_no_space c h = ground arith

Digits-NoSpace : (s : Bytes) → Digits s → NoSpace s
Digits-NoSpace [] h = tt
Digits-NoSpace (c ∷ s) h = (digit_no_space c h.0, Digits-NoSpace s h.1)

module _ (outside : Outside) where
  extract_pid_lem :
      (container : Bytes) (pid : ℕ)
      → (container == []) ≡ false
      → outside.inspect container ≡ some (decimal pid ++ b'\n' ∷ [])
      → pid < 2 ^ 63
      → extract_pid outside container ≡ ok (pos pid)
  unfolding extract_pid
  extract_pid_lem container pid named inspected small = rw named (
      rw (inspected, extract_pid)
        (rw (trim_space_line (decimal pid) (Digits-NoSpace (decimal pid) (decimal-Digits pid)))
          (rw (atoi-decimal pid small, extract_pid))))

-- An element with the newline of its line behind it is still one.
line-IsElement : (part : Bytes) → IsElement part → IsElement (part ++ b'\n' ∷ [])
line-IsElement part e = record {
  no_dot = no_dot part;
  no_parent = no_parent part;
  no_slash = All-append _ part (b'\n' ∷ []) e.no_slash (refl, tt);
}
  where
    no_dot : (part : Bytes) → (part ++ b'\n' ∷ [] == [] || part ++ b'\n' ∷ [] == codes ".") ≡ false
    no_dot [] = refl
    no_dot (c ∷ []) = ground arith
    no_dot (c ∷ (d ∷ part)) = ground arith

    no_parent : (part : Bytes) → (part ++ b'\n' ∷ [] == codes "..") ≡ false
    no_parent [] = refl
    no_parent (c ∷ []) = ground arith
    no_parent (c ∷ (d ∷ [])) = ground arith
    no_parent (c ∷ (d ∷ (e ∷ part))) = ground arith

rooted_line :
    (parts : List Bytes) (last : Bytes)
    → rooted (parts ++ last ∷ []) ++ b'\n' ∷ [] ≡ rooted (parts ++ (last ++ b'\n' ∷ []) ∷ [])
unfolding rooted
rooted_line [] last = ap (◌∷◌ b'/') (rw (append-nil last, append-nil (last ++ b'\n' ∷ [])))
rooted_line (part ∷ parts) last = ap (◌∷◌ b'/') (
    append_assoc part (rooted (parts ++ last ∷ [])) (b'\n' ∷ [])
    ∙ ap (λ s. part ++ s) (rooted_line parts last))

rooted-NoSpace : (parts : List Bytes) → All NoSpace parts → NoSpace (rooted parts)
unfolding rooted
rooted-NoSpace [] h = tt
rooted-NoSpace (part ∷ parts) h =
    (refl, All-append _ part (rooted parts) h.0 (rooted-NoSpace parts h.1))

read_line-NoSpace :
    (w rest : Bytes) → NoSpace w → read_line (w ++ (b'\n' ∷ rest)) ≡ some (w ++ b'\n' ∷ [])
unfolding read_line
read_line-NoSpace [] rest h = refl
read_line-NoSpace (c ∷ w) rest h = rw (no_newline c h.0) (rw (read_line-NoSpace w rest h.1))
  where
    no_newline : (c : ℕ) → is_space c ≡ false → eqb c b'\n' ≡ false
    no_newline c h = ground arith

path_in_line_lem :
    (outside : Outside) (parts : List Bytes) (last : Bytes)
    → All IsElement parts
    → IsElement last
    → All NoSpace (parts ++ last ∷ [])
    → path_in_line outside (codes "0::" ++ (rooted (parts ++ last ∷ []) ++ b'\n' ∷ []))
      ≡ ok (codes "/sys/fs/cgroup" ++ rooted (parts ++ last ∷ []))
unfolding path_in_line third_part behind
path_in_line_lem outside parts last h e spaceless =
    ap (λ s. ok (trim_space s))
      (ap (join_path (codes "/sys/fs/cgroup")) (rooted_line parts last)
        ∙ join_path-rooted (parts ++ (last ++ b'\n' ∷ []) ∷ [])
            (All-append IsElement parts _ h (line-IsElement last e, tt))
        ∙ ap (λ s. codes "/sys/fs/cgroup" ++ s) (sym (rooted_line parts last)))
    ∙ ap ok (
        trim_space_line (codes "/sys/fs/cgroup" ++ rooted (parts ++ last ∷ [])) (
          All-append _ (codes "/sys/fs/cgroup") _ (none_is is_space (codes "/sys/fs/cgroup") refl)
            (rooted-NoSpace (parts ++ last ∷ []) spaceless)))

module _ (outside : Outside) where
  -- Where docker prints the decimal process id of a container and a newline, the first line of that
  -- process's /proc/<pid>/cgroup is `0::` and a path of plain elements (no white space, no `.`
  -- and no `..`), and the directory of this path under /sys/fs/cgroup has a Stat_t, resolveCgroupID
  -- returns the inode of this directory.
  pub resolve_cgroup_id_lem :
      (container : Bytes) (pid inode : ℕ) (parts : List Bytes) (last rest : Bytes)
      → (container == []) ≡ false
      → pid < 2 ^ 63
      → outside.inspect container ≡ some (decimal pid ++ b'\n' ∷ [])
      → All IsElement parts
      → IsElement last
      → All NoSpace (parts ++ last ∷ [])
      → outside.content (codes "/proc/" ++ (decimal pid ++ codes "/cgroup"))
        ≡ some (codes "0::" ++ (rooted (parts ++ last ∷ []) ++ (b'\n' ∷ rest)))
      → outside.stat (codes "/sys/fs/cgroup" ++ rooted (parts ++ last ∷ [])) ≡ some (some inode)
      → resolve_cgroup_id outside container ≡ ok inode
  unfolding resolve_cgroup_id resolve_cgroup_path signed_decimal
  resolve_cgroup_id_lem container pid inode parts last rest named small inspected plain e spaceless
        content stat =
      rw (extract_pid_lem outside container pid named inspected small, ◌>>=◌)
        (rw (content, resolve_cgroup_path)
          (rw (first_line, resolve_cgroup_path)
            (rw (path_in_line_lem outside parts last plain e spaceless, ◌>>=◌)
              (rw (stat, resolve_cgroup_id)))))
    where
      first_line :
          read_line (codes "0::" ++ (rooted (parts ++ last ∷ []) ++ (b'\n' ∷ rest)))
          ≡ some (codes "0::" ++ (rooted (parts ++ last ∷ []) ++ b'\n' ∷ []))
      first_line = read_line-NoSpace (codes "0::" ++ rooted (parts ++ last ∷ [])) rest (
          All-append _ (codes "0::") _ (none_is is_space (codes "0::") refl)
            (rooted-NoSpace (parts ++ last ∷ []) spaceless))
