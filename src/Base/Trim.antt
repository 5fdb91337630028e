-- ===== src/Base/Trim.antt =====
-- strings.TrimSpace on a text with no space and a newline behind it.
use Prim.Native.Nat.{ℕ}
use mathlib.Core.List.{List, [], ◌∷◌, ◌++◌, reverse, reverse-append, reverse-reverse}
use mathlib.Core.Path.{◌≡◌, refl, sym, subst, ap, ◌∙◌}
use syscap.Base.Lists.{All, All-append}
use syscap.Base.Strings.{NoSpace, is_space, skip_spaces, trim_space}
use syscap.Base.Text.{Bytes}
use mathlib.Core.Bool.{false}

skip_spaces_first : (c : ℕ) (s : Bytes) → is_space c ≡ false → skip_spaces (c ∷ s) ≡ c ∷ s
unfolding skip_spaces
skip_spaces_first c s h = rw h

skip_spaces-NoSpace : (w : Bytes) → NoSpace w → skip_spaces w ≡ w
unfolding skip_spaces
skip_spaces-NoSpace [] h = refl
skip_spaces-NoSpace (c ∷ w) h = skip_spaces_first c w h.0

All-reverse {ℓ κ} : {A : Type ℓ} (P : A → Type κ) (xs : List A) → All P xs → All P (reverse xs)
All-reverse P [] h = tt
All-reverse P (x ∷ xs) h =
    subst (All P) (sym (reverse-append (x ∷ []) xs))
      (All-append P (reverse xs) (x ∷ []) (All-reverse P xs h.1) (h.0, tt))

pub trim_space_line : (w : Bytes) → NoSpace w → trim_space (w ++ b'\n' ∷ []) ≡ w
unfolding trim_space
trim_space_line [] h = refl
trim_space_line (c ∷ w) h =
    ap (λ s. reverse (skip_spaces (reverse s))) (skip_spaces_first c (w ++ b'\n' ∷ []) h.0)
    ∙ ap (λ s. reverse (skip_spaces s)) (reverse-append (c ∷ w) (b'\n' ∷ []))
    ∙ ap reverse
        (unfold skip_spaces in skip_spaces-NoSpace (reverse (c ∷ w)) (All-reverse _ (c ∷ w) h))
    ∙ reverse-reverse (c ∷ w)

-- A tab goes from the front of a text that begins and ends with no space.
pub trim_space_tab :
    (c d : ℕ) (mid : Bytes)
    → is_space c ≡ false
    → is_space d ≡ false
    → trim_space (b'\t' ∷ (c ∷ (mid ++ d ∷ []))) ≡ c ∷ (mid ++ d ∷ [])
unfolding trim_space skip_spaces
trim_space_tab c d mid first last =
    ap (λ s. reverse (skip_spaces (reverse s))) (skip_spaces_first c (mid ++ d ∷ []) first)
    ∙ ap (λ s. reverse (skip_spaces s)) (reverse-append (c ∷ mid) (d ∷ []))
    ∙ ap reverse (skip_spaces_first d (reverse (c ∷ mid)) last)
    ∙ ap reverse (sym (reverse-append (c ∷ mid) (d ∷ [])))
    ∙ reverse-reverse (c ∷ (mid ++ d ∷ []))
