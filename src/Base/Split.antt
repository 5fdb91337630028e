-- ===== src/Base/Split.antt =====
-- strings.Split and strings.Cut at one byte, on texts whose pieces are known.
use mathlib.Core.List.{List, [], ◌∷◌, ◌++◌}
use mathlib.Core.Option
use mathlib.Core.Option.{Option, none, some}
use mathlib.Core.Bool.{false}
use mathlib.Core.Path.{◌≡◌, refl, ap, ◌∙◌}
use Prim.Native.Nat.{ℕ}
use syscap.Base.Lists.{All}
use syscap.Base.Tests.{eqb, eqb_iff, if◌then◌else◌}
use syscap.Base.Text.{Bytes, join, split}

abbrev pub Without : ℕ → Bytes → Type 0
Without sep = All (λ c. eqb c sep ≡ false)

-- strings.Cut
unfoldable pub cut : ℕ → Bytes → Option (Bytes × Bytes)
cut sep [] = none
cut sep (c ∷ s) =
    let rest = cut sep s in
    if eqb c sep then some ([], s) else Option.map (λ (before, after). (c ∷ before, after)) rest

pub cut_at : (sep : ℕ) (p s : Bytes) → Without sep p → cut sep (p ++ (sep ∷ s)) ≡ some (p, s)
unfolding cut
cut_at sep [] s h = rw ((eqb_iff sep sep).1 refl)
cut_at sep (c ∷ p) s h = rw h.0 (rw (cut_at sep p s h.1))

pub split_piece : (sep : ℕ) (p : Bytes) → Without sep p → split sep p ≡ p ∷ []
unfolding split
split_piece sep [] h = refl
split_piece sep (c ∷ p) h = rw h.0 (rw (split_piece sep p h.1))

pub split_first :
    (sep : ℕ) (p s : Bytes) → Without sep p → split sep (p ++ (sep ∷ s)) ≡ p ∷ split sep s
unfolding split
split_first sep [] s h = rw ((eqb_iff sep sep).1 refl)
split_first sep (c ∷ p) s h = rw h.0 (rw (split_first sep p s h.1))

-- `Split` undoes `Join` where no piece has the separator.
pub split-join :
    (sep : ℕ) (p : Bytes) (ps : List Bytes)
    → All (Without sep) (p ∷ ps)
    → split sep (join (sep ∷ []) (p ∷ ps)) ≡ p ∷ ps
unfolding join
split-join sep p [] h = split_piece sep p h.0
split-join sep p (q ∷ ps) h =
    split_first sep p (join (sep ∷ []) (q ∷ ps)) h.0 ∙ ap (◌∷◌ p) (split-join sep q ps h.1)
