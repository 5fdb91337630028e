-- ===== src/Scripts/Fields/Names.antt =====
-- scripts/syscallFields.go and parse_arg.go: parseArgumentDecl finds the name in the declarations
-- that the generator writes.
use mathlib.Core.List.{append_assoc}
use syscap.Args.Decl.{argument_name, parse_argument_decl, last_part}
use syscap.Base.{
  true, false, List, [], ◌∷◌, ◌++◌, eqb, Bytes, codes, join, fields, words, ahead, IsWord, NoSpace,
  trim_left, All, All-append, ◌≡◌, refl, ap, subst, ◌∙◌, inl, inr, Bool-cases,
}
use syscap.Scripts.Fields.Laws.{Field, declaration, last_part_at}
use syscap.Scripts.Fields.{has_suffix}

words_gap : (p s : Bytes) → NoSpace p → words (p ++ (b' ' ∷ s)) ≡ (p, fields s)
unfolding words fields
words_gap [] s h = refl
words_gap (c ∷ p) s h = rw h.0 (ap (λ (w, ws). (c ∷ w, ws)) (words_gap p s h.1))

words_end : (p : Bytes) → NoSpace p → words p ≡ (p, [])
unfolding words
words_end [] h = refl
words_end (c ∷ p) h = rw h.0 (ap (λ (w, ws). (c ∷ w, ws)) (words_end p h.1))

ahead-IsWord_own : (p : Bytes) (ps : List Bytes) → IsWord p → ahead p ps ≡ p ∷ ps
ahead-IsWord_own [] ps h = elim h [ ]
ahead-IsWord_own (c ∷ p) ps h = refl

IsWord-NoSpace : (p : Bytes) → IsWord p → NoSpace p
IsWord-NoSpace [] h = elim h [ ]
IsWord-NoSpace (c ∷ p) h = h

-- strings.Fields gives back words that single spaces join.
fields-join : (ps : List Bytes) → All IsWord ps → fields (join (codes " ") ps) ≡ ps
unfolding join fields
fields-join [] h = unfold words in refl
fields-join (p ∷ []) h =
    ap (λ (w, ws). ahead w ws) (words_end p (IsWord-NoSpace p h.0)) ∙ ahead-IsWord_own p [] h.0
fields-join (p ∷ (q ∷ ps)) h =
    ap (λ (w, ws). ahead w ws) (words_gap p (join (codes " ") (q ∷ ps)) (IsWord-NoSpace p h.0))
    ∙ ahead-IsWord_own p _ h.0
    ∙ ap (◌∷◌ p) (fields-join (q ∷ ps) h.1)

join-snoc :
    (p : Bytes) (ps : List Bytes) (q s : Bytes)
    → join (codes " ") (p ∷ (ps ++ q ∷ [])) ++ s ≡ join (codes " ") (p ∷ (ps ++ (q ++ s) ∷ []))
unfolding join
join-snoc p [] q s = append_assoc p (codes " " ++ q) s
join-snoc p (r ∷ ps) q s =
    append_assoc p (codes " " ++ join (codes " ") (r ∷ (ps ++ q ∷ []))) s
    ∙ ap (λ t. p ++ (codes " " ++ t)) (join-snoc r ps q s)

join-last :
    (p : Bytes) (ps : List Bytes) (q : Bytes)
    → join (codes " ") (p ∷ ps) ++ (codes " " ++ q) ≡ join (codes " ") (p ∷ (ps ++ q ∷ []))
unfolding join
join-last p [] q = refl
join-last p (r ∷ ps) q =
    append_assoc p (codes " " ++ join (codes " ") (r ∷ ps)) (codes " " ++ q)
    ∙ ap (λ t. p ++ (codes " " ++ t)) (join-last r ps q)

All-split {ℓ κ} :
    {A : Type ℓ} (P : A → Type κ) (xs ys : List A) → All P (xs ++ ys) → All P xs × All P ys
All-split P [] ys h = (tt, h)
All-split P (x ∷ xs) ys h = let (a, b) = All-split P xs ys h.1 in ((h.0, a), b)

-- A name of an argument: it does not begin with a `*`.
abbrev pub IsName : Bytes → Type 0
IsName [] = ⊥
IsName (c ∷ name) = NoSpace (c ∷ name) × (eqb c b'*' ≡ false)

abbrev pub Stars : Bytes → Type 0
Stars = All (λ c. eqb c b'*' ≡ true)

trim_left-Stars :
    (stars name : Bytes) → Stars stars → IsName name → trim_left b'*' (stars ++ name) ≡ name
unfolding trim_left
trim_left-Stars [] [] h k = elim k [ ]
trim_left-Stars [] (c ∷ name) h k = rw k.1
trim_left-Stars (s ∷ stars) name h k = rw h.0 (trim_left-Stars stars name h.1 k)

IsName-IsWord : (name : Bytes) → IsName name → IsWord name
IsName-IsWord [] h = elim h [ ]
IsName-IsWord (c ∷ name) h = h.0

append-IsWord : (p q : Bytes) → NoSpace p → IsWord q → IsWord (p ++ q)
append-IsWord [] q h k = k
append-IsWord (c ∷ p) q h k = All-append _ (c ∷ p) q h (IsWord-NoSpace q k)

argument_name-fields :
    (s p : Bytes) (ps : List Bytes)
    → fields s ≡ p ∷ ps
    → argument_name s ≡ trim_left b'*' (last_part p ps)
unfolding argument_name
argument_name-fields s p ps e = rw (e, argument_name, parse_argument_decl)

-- The name among words of which the last one is the name behind stars.
argument_name-words :
    (p : Bytes) (ps : List Bytes) (stars name : Bytes)
    → All IsWord (p ∷ ps)
    → NoSpace stars
    → Stars stars
    → IsName name
    → argument_name (join (codes " ") (p ∷ (ps ++ (stars ++ name) ∷ []))) ≡ name
argument_name-words p ps stars name h k l m =
    let words_of_name : All IsWord (p ∷ (ps ++ (stars ++ name) ∷ [])) =
      (h.0, All-append IsWord ps _ h.1 (append-IsWord stars name k (IsName-IsWord name m), tt)) in
    argument_name-fields _ p (ps ++ (stars ++ name) ∷ []) (fields-join _ words_of_name)
    ∙ ap (trim_left b'*') (last_part_at p ps (stars ++ name))
    ∙ trim_left-Stars stars name l m

-- parseArgumentDecl finds the name in the declaration that the generator makes of a field, where the
-- words of its type and its name have no white space, the name does not begin with `*`, and a type
-- that ends in `*` has at least two words of which the last consists of stars.
pub argument_name-declaration :
    (f : Field)
    → All IsWord (f.first ∷ f.more)
    → IsName f.field_name
    → (has_suffix b'*' (join (codes " ") (f.first ∷ f.more)) ≡ true
        → (before : List Bytes) × (stars : Bytes) × (f.more ≡ before ++ stars ∷ []) × Stars stars)
    → argument_name (declaration f) ≡ f.field_name
argument_name-declaration f h k pointer =
    elim (Bool-cases (has_suffix b'*' (join (codes " ") (f.first ∷ f.more)))) [
      | inr plain ↦ rw plain (
          ap argument_name (join-last f.first f.more f.field_name)
          ∙ argument_name-words f.first f.more [] f.field_name h tt tt k)
      | inl starred ↦
          let (before, stars, same, all_stars) = pointer starred in
          let split_words : All IsWord (before ++ stars ∷ []) = subst (All IsWord) same h.1 in
          let (left, (right, _)) = All-split IsWord before (stars ∷ []) split_words in
          rw starred (
            ap (λ ps. argument_name (join (codes " ") (f.first ∷ ps) ++ f.field_name)) same
            ∙ ap argument_name (join-snoc f.first before stars f.field_name)
            ∙ argument_name-words f.first before stars f.field_name (h.0, left)
                (IsWord-NoSpace stars right) all_stars k)
    ]
