-- ===== src/Args/Decl.antt =====
-- parse_arg.go: parseArgumentDecl and argumentName.
use syscap.Base.{
  ◌-◌, List, [], ◌∷◌, ◌++◌, length, take, Bytes, codes, join, fields, trim_left, trim_space,
  replace_all,
}

-- argumentDecl
pub record ArgumentDecl : Type 0 where
  pub type_text : Bytes
  pub name : Bytes

-- `parts[len(parts)-1]` and `parts[:len(parts)-1]` of a list with this head.
unfoldable pub last_part : Bytes → List Bytes → Bytes
last_part p [] = p
last_part p (q ∷ qs) = last_part q qs

unfoldable pub but_last : Bytes → List Bytes → List Bytes
but_last p [] = []
but_last p (q ∷ qs) = p ∷ but_last q qs

-- ReplaceAll(" *", "*"), ReplaceAll("*", " *"), and single spaces.
unfoldable pub tidy_type : Bytes → Bytes
unfolding replace_all join fields
tidy_type t =
    join (codes " ")
      (fields (replace_all (replace_all t (codes " *") (codes "*")) (codes "*") (codes " *")))

unfoldable pub type_of : List Bytes → Bytes → Bytes
unfolding tidy_type trim_space join
type_of [] ptr_prefix = trim_space ptr_prefix
type_of (p ∷ ps) ptr_prefix = tidy_type (join (codes " ") (p ∷ ps) ++ ptr_prefix)

unfoldable pub parse_argument_decl : Bytes → ArgumentDecl
unfolding fields type_of last_part but_last trim_left
parse_argument_decl field_decl = elim (fields field_decl) [
  | [] ↦ record { type_text = []; name = [] }
  | p ∷ ps ↦
      let raw_name = last_part p ps in
      let name = trim_left b'*' raw_name in
      let ptr_prefix = take (length raw_name - length name) raw_name in
      record { type_text = type_of (but_last p ps) ptr_prefix; name = name }
]

unfoldable pub argument_name : Bytes → Bytes
unfolding parse_argument_decl
argument_name field_decl = (parse_argument_decl field_decl).name
