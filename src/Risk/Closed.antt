-- ===== src/Risk/Closed.antt =====
-- risk.go: patterns that end in `$` and match no comma see only what follows the last comma.
use mathlib.Core.List.{append_assoc}
use syscap.Base.{
  ℕ, Bool, true, false, not, ◌&&◌, List, [], ◌∷◌, ◌++◌, ◌≡◌, refl, ◌∙◌, arith, inl, inr, eqb,
  Bool-cases, Bytes, codes, join, has_byte, is_digit, Digits,
}
use syscap.Risk.Pattern.{
  Piece, byte, no_commas, no_commas_opt, at_end, past_no_commas, match_here, match_pieces,
}

-- No piece takes a comma, and the last one is the end of the text.
abbrev pub is_closed : List Piece → Bool
is_closed [] = false
is_closed (byte b ∷ ps) = not (eqb b b',') && is_closed ps
is_closed (no_commas ∷ ps) = is_closed ps
is_closed (no_commas_opt ∷ ps) = is_closed ps
is_closed (at_end ∷ ps) = true

abbrev has_comma : Bytes → Bool
has_comma = has_byte b','

past_no_commas-false :
    (k : Bytes → Bool) (s : Bytes)
    → ((t : Bytes) → has_comma t ≡ true → k t ≡ false)
    → has_comma s ≡ true
    → past_no_commas k s ≡ false
unfolding past_no_commas
past_no_commas-false k [] never h = cc
past_no_commas-false k (c ∷ s) never h = elim (Bool-cases (eqb c b',')) [
  | inl comma ↦ ground (arith, never (c ∷ s))
  | inr other ↦ ground (arith, never (c ∷ s), past_no_commas-false k s never)
]

match_here_comma :
    (ps : List Piece) (s : Bytes)
    → is_closed ps ≡ true
    → has_comma s ≡ true
    → match_here ps s ≡ false
unfolding match_here
match_here_comma [] s closed h = cc
match_here_comma (byte b ∷ ps) [] closed h = refl
match_here_comma (byte b ∷ ps) (c ∷ s) closed h = ground (arith, match_here_comma ps s)
match_here_comma (no_commas ∷ ps) s closed h =
    past_no_commas-false (match_here ps) s (λ t k. match_here_comma ps t closed k) h
match_here_comma (no_commas_opt ∷ ps) s closed h =
    past_no_commas-false (match_here ps) s (λ t k. match_here_comma ps t closed k) h
match_here_comma (at_end ∷ ps) [] closed h = cc
match_here_comma (at_end ∷ ps) (c ∷ s) closed h = refl

has_comma-append : (s t : Bytes) → has_comma (s ++ (b',' ∷ t)) ≡ true
has_comma-append [] t = refl
has_comma-append (c ∷ s) t = ground (arith, has_comma-append s t)

match_pieces_after :
    (ps : List Piece) (before after : Bytes)
    → is_closed ps ≡ true
    → match_pieces ps (before ++ (b',' ∷ after)) ≡ match_pieces ps after
unfolding match_pieces
match_pieces_after ps [] after closed = ground (arith, match_here_comma ps (b',' ∷ after))
match_pieces_after ps (c ∷ before) after closed = ground (
  arith,
  match_here_comma ps (c ∷ (before ++ (b',' ∷ after))),
  has_comma-append (c ∷ before) after,
  match_pieces_after ps before after,
)

-- Of arguments joined by commas, a closed pattern sees the last.
pub match_pieces_last :
    (ps : List Piece) (before first : Bytes) (more : List Bytes) (last : Bytes)
    → is_closed ps ≡ true
    → match_pieces ps (before ++ join (codes ", ") (first ∷ (more ++ last ∷ [])))
      ≡ match_pieces ps (b' ' ∷ last)
unfolding join
match_pieces_last ps before first [] last closed =
    rw (← append_assoc) (match_pieces_after ps (before ++ first) (b' ' ∷ last) closed)
match_pieces_last ps before first (next ∷ more) last closed = rw (← append_assoc) (
    match_pieces_after ps (before ++ first) (b' ' ∷ join (codes ", ") (next ∷ (more ++ last ∷ [])))
      closed
    ∙ match_pieces_last ps (b' ' ∷ []) next more last closed)

-- A pattern that begins with no digit finds nothing in a number.
pub match_pieces-Digits :
    (b : ℕ) (ps : List Piece) (s : Bytes)
    → is_digit b ≡ false
    → Digits s
    → match_pieces (byte b ∷ ps) s ≡ false
unfolding match_pieces match_here
match_pieces-Digits b ps [] h d = refl
match_pieces-Digits b ps (c ∷ s) h (first, d) = ground (arith, match_pieces-Digits b ps s h d)
