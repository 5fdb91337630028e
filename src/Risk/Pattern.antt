-- ===== src/Risk/Pattern.antt =====
-- risk.go: SensitiveArgRule, mc and sar, with the part of `regexp` that the rules use: bytes,
-- `[^,]*`, `([^,]*)?` and `$`. Any other operator is refused by `compile`; see Risk/Examples.antt
-- for the rules of the program.
use mathlib.Core.Option
use syscap.Base.{
  ℕ, zero, suc, Bool, true, false, not, ◌&&◌, ◌||◌, String, List, [], ◌∷◌, Option, none, some,
  if◌then◌else◌, eqb, contains, nat_eq, Bytes, codes, has_prefix,
}

pub data Piece : Type 0 where
  byte : ℕ → Piece
  -- `[^,]*`
  no_commas : Piece
  -- `([^,]*)?`
  no_commas_opt : Piece
  -- `$`, the end of the text
  at_end : Piece

abbrev pub meta_bytes : Bytes
meta_bytes = codes "\\.+*?()|[]{}^"

-- The number counts the bytes of an operator still to pass.
unfoldable pub compile_from : ℕ → Bytes → Option (List Piece)
unfolding has_prefix
compile_from n [] = some []
compile_from (suc n) (c ∷ s) = compile_from n s
compile_from zero (c ∷ s) =
    let opt = has_prefix (c ∷ s) (codes "([^,]*)?") in
    let star = has_prefix (c ∷ s) (codes "[^,]*") in
    let rest = compile_from (if opt then 7 else if star then 4 else 0) s in
    let piece =
      if opt
      then no_commas_opt
      else if star
      then no_commas
      else if eqb c b'$'
      then at_end
      else byte c in
    if not opt && not star && contains c meta_bytes
    then none
    else Option.map (λ pieces. piece ∷ pieces) rest

unfoldable pub compile : Bytes → Option (List Piece)
unfolding compile_from
compile source = compile_from 0 source

-- Some number of bytes other than a comma, then what `k` wants.
unfoldable pub past_no_commas : (Bytes → Bool) → Bytes → Bool
past_no_commas k [] = k []
past_no_commas k (c ∷ s) = k (c ∷ s) || (not (eqb c b',') && past_no_commas k s)

abbrev pub is_empty : Bytes → Bool
is_empty [] = true
is_empty (c ∷ s) = false

-- A match that begins at the first byte.
unfoldable pub match_here : List Piece → Bytes → Bool
unfolding past_no_commas
match_here [] s = true
match_here (byte b ∷ ps) [] = false
match_here (byte b ∷ ps) (c ∷ s) = eqb c b && match_here ps s
match_here (no_commas ∷ ps) s = past_no_commas (match_here ps) s
match_here (no_commas_opt ∷ ps) s = past_no_commas (match_here ps) s
match_here (at_end ∷ ps) s = is_empty s && match_here ps s

-- A match anywhere, as MatchString looks for.
unfoldable pub match_pieces : List Piece → Bytes → Bool
unfolding match_here
match_pieces ps [] = match_here ps []
match_pieces ps (c ∷ s) = match_here ps (c ∷ s) || match_pieces ps s

-- `source` is what Pattern.String() gives back.
pub record SensitiveArgRule : Type 0 where
  pub source : String
  pub reason : String

unfoldable pub sar : String → String → SensitiveArgRule
sar pattern reason = record { source = pattern; reason = reason }

-- `cond.Pattern.MatchString(args)`. A pattern that does not compile panics in `mc`, at the start.
unfoldable pub match_string : SensitiveArgRule → Bytes → Bool
unfolding compile match_pieces
match_string rule args = elim (compile (codes rule.source)) [
  | none ↦ false
  | some pieces ↦ match_pieces pieces args
]
