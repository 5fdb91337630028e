-- ===== src/Scripts/Fields/Laws.antt =====
-- scripts/syscallFields.go: what is read from a format file of the kernel.
use mathlib.Core.List.{append_assoc, append-nil}
use syscap.Args.Decl.{last_part, but_last}
use syscap.Base.{
  ℕ, Bool, true, false, not, List, [], ◌∷◌, ◌++◌, none, some, map, if◌then◌else◌, eqb, eqb_iff,
  ◌==◌, bytes_has_eq, Bytes, codes, join, split, split_first, split-join, Without, has_prefix,
  trim_space, trim_space_tab, All, All-append, ◌≡◌, refl, sym, ap, ◌∙◌, inl, inr, Bool-cases, keep,
}
use syscap.Scripts.Fields.{trim_suffix, first_piece, with_name, declared, field_of, fields_from}

-- A field as the kernel prints it: the words of its type, its name, and what follows its first `;`,
-- a `;` at the end left off.
pub record Field : Type 0 where
  pub first : Bytes
  pub more : List Bytes
  pub field_name : Bytes
  pub layout : Bytes

abbrev pub declaration_text : Field → Bytes
declaration_text f = join (codes " ") (f.first ∷ (f.more ++ f.field_name ∷ []))

abbrev pub field_line : Field → Bytes
field_line f = b'\t' ∷ (codes "field:" ++ (declaration_text f ++ (b';' ∷ (f.layout ++ b';' ∷ []))))

pub record IsField (f : Field) : Type 0 where
  pub whole_words : All (Without b' ') (f.first ∷ (f.more ++ f.field_name ∷ []))
  pub no_end : All (Without b';') (f.first ∷ (f.more ++ f.field_name ∷ []))

-- The declarations that the generator writes: those of the fields that no `_` marks as the kernel's.
abbrev pub is_user : Field → Bool
is_user f = not (has_prefix f.field_name (codes "_"))

abbrev pub declaration : Field → Bytes
declaration f = with_name (join (codes " ") (f.first ∷ f.more)) f.field_name

trim_suffix_at : (b : ℕ) (s : Bytes) → trim_suffix b (s ++ b ∷ []) ≡ s
unfolding trim_suffix
trim_suffix_at b [] = rw ((eqb_iff b b).1 refl)
trim_suffix_at b (c ∷ []) = ap (◌∷◌ c) (trim_suffix_at b [])
trim_suffix_at b (c ∷ (d ∷ s)) = ap (◌∷◌ c) (trim_suffix_at b (d ∷ s))

pub last_part_at : (p : Bytes) (ps : List Bytes) (q : Bytes) → last_part p (ps ++ q ∷ []) ≡ q
unfolding last_part
last_part_at p [] q = refl
last_part_at p (r ∷ ps) q = last_part_at r ps q

but_last_at : (p : Bytes) (ps : List Bytes) (q : Bytes) → but_last p (ps ++ q ∷ []) ≡ p ∷ ps
unfolding but_last
but_last_at p [] q = refl
but_last_at p (r ∷ ps) q = ap (◌∷◌ p) (but_last_at r ps q)

declared_words :
    (first : Bytes) (more : List Bytes) (field_name : Bytes)
    → declared (first ∷ (more ++ field_name ∷ [])) ≡ (
        if has_prefix field_name (codes "_")
        then none
        else some (with_name (join (codes " ") (first ∷ more)) field_name))
unfolding declared
declared_words first [] field_name = unfold but_last last_part in refl
declared_words first (p ∷ more) field_name =
    rw (last_part_at p more field_name, but_last_at p more field_name)

join-Without :
    (b : ℕ) (p : Bytes) (ps : List Bytes)
    → eqb b' ' b ≡ false
    → All (Without b) (p ∷ ps)
    → Without b (join (codes " ") (p ∷ ps))
unfolding join
join-Without b p [] gap h = h.0
join-Without b p (q ∷ ps) gap h = All-append _ p _ h.0 (gap, join-Without b q ps gap h.1)

abbrev trimmed : Field → Bytes
trimmed f = codes "field:" ++ (declaration_text f ++ (b';' ∷ (f.layout ++ b';' ∷ [])))

trim_space_field : (f : Field) → trim_space (field_line f) ≡ trimmed f
trim_space_field f =
    let tail : declaration_text f ++ (b';' ∷ (f.layout ++ b';' ∷ []))
        ≡ (declaration_text f ++ (b';' ∷ f.layout)) ++ b';' ∷ [] =
      sym (append_assoc (declaration_text f) (b';' ∷ f.layout) (b';' ∷ [])) in
    ap (λ s. trim_space (b'\t' ∷ (codes "field:" ++ s))) tail
    ∙ trim_space_tab b'f' b';' (codes "ield:" ++ (declaration_text f ++ (b';' ∷ f.layout))) refl
        refl
    ∙ ap (λ s. codes "field:" ++ s) (sym tail)

field_of-trimmed :
    (f : Field)
    → IsField f
    → field_of (trimmed f)
      ≡ (if has_prefix f.field_name (codes "_") then none else some (declaration f))
unfolding field_of has_prefix
field_of-trimmed f h =
    ap (λ s. declared (split b' ' (first_piece (split b';' (trim_suffix b';' s)))))
      (sym (append_assoc (declaration_text f) (b';' ∷ f.layout) (b';' ∷ [])))
    ∙ ap (λ s. declared (split b' ' (first_piece (split b';' s))))
        (trim_suffix_at b';' (declaration_text f ++ (b';' ∷ f.layout)))
    ∙ ap (λ ps. declared (split b' ' (first_piece ps)))
        (split_first b';' (declaration_text f) f.layout
          (join-Without b';' f.first (f.more ++ f.field_name ∷ []) refl h.no_end))
    ∙ ap declared (split-join b' ' f.first (f.more ++ f.field_name ∷ []) h.whole_words)
    ∙ declared_words f.first f.more f.field_name

fields_from_line :
    (f : Field) (lines : List Bytes)
    → IsField f
    → fields_from true (field_line f ∷ lines)
      ≡ (if is_user f then declaration f ∷ fields_from true lines else fields_from true lines)
unfolding fields_from
fields_from_line f lines h = rw (trim_space_field f) (
    rw (field_of-trimmed f h) (elim (Bool-cases (has_prefix f.field_name (codes "_"))) [
      | inl own ↦ rw own
      | inr user ↦ rw user
    ]))

fields_from-fields :
    (fs : List Field) (lines : List Bytes)
    → All IsField fs
    → fields_from true (map field_line fs ++ lines)
      ≡ map declaration (keep is_user fs) ++ fields_from true lines
fields_from-fields [] lines h = refl
fields_from-fields (f ∷ fs) lines h =
    fields_from_line f (map field_line fs ++ lines) h.0 ∙ elim (Bool-cases (is_user f)) [
      | inl user ↦ rw user (ap (◌∷◌ (declaration f)) (fields_from-fields fs lines h.1))
      | inr own ↦ rw own (fields_from-fields fs lines h.1)
    ]

fields_from_header :
    (header lines : List Bytes)
    → All (λ line. (trim_space line == []) ≡ false) header
    → fields_from false (header ++ lines) ≡ fields_from false lines
unfolding fields_from
fields_from_header [] lines h = refl
fields_from_header (line ∷ header) lines h = rw h.0 (fields_from_header header lines h.1)

fields_from_trailer :
    (trailer : List Bytes)
    → All (λ line. has_prefix (trim_space line) (codes "field:") ≡ false) trailer
    → fields_from true trailer ≡ []
unfolding fields_from field_of
fields_from_trailer [] h = refl
fields_from_trailer (line ∷ trailer) h =
    let rest = fields_from_trailer trailer h.1 in
    elim (Bool-cases (trim_space line == [])) [
      | inl blank ↦ rw blank rest
      | inr full ↦ rw full (rw h.0 rest)
    ]

-- Of a format file (a header with no blank line, in which the fields common to all tracepoints stand,
-- a blank line, the syscall's fields, and lines with no `field:` in front), getSyscallFields takes
-- exactly the syscall's fields whose names begin with no `_`, in order: each as its type and its name,
-- with a space between them unless the type ends in `*`.
pub fields_from_format :
    (header : List Bytes) (fs : List Field) (trailer : List Bytes)
    → All (λ line. (trim_space line == []) ≡ false) header
    → All IsField fs
    → All (λ line. has_prefix (trim_space line) (codes "field:") ≡ false) trailer
    → fields_from false (header ++ ([] ∷ (map field_line fs ++ trailer)))
      ≡ map declaration (keep is_user fs)
fields_from_format header fs trailer before h after =
    fields_from_header header _ before
    ∙ blank (map field_line fs ++ trailer)
    ∙ fields_from-fields fs trailer h
    ∙ ap (λ rest. map declaration (keep is_user fs) ++ rest) (fields_from_trailer trailer after)
    ∙ append-nil (map declaration (keep is_user fs))
  where
    blank : (lines : List Bytes) → fields_from false ([] ∷ lines) ≡ fields_from true lines
    blank lines = unfold fields_from trim_space in refl
