-- ===== src/Scripts/Writer/Laws.antt =====
-- scripts/: a bufio.Writer keeps the order of what it is given, and reaches its file in whole
-- buffers only.
use syscap.Base.{
  take_append_drop, length-take-drop, ℕ, zero, suc, true, false, ◌+◌, ◌-◌, ◌*◌, ◌/◌, ◌%◌, ◌≤◌, ◌<◌,
  List, [], ◌∷◌, ◌++◌, leb, leb→le, ◌==◌, bytes_has_eq, bytes_eq_iff, Bytes, length, take, drop,
  length-append, All, ◌≡◌, refl, sym, ap, ◌∙◌, inl, inr, arith, Bool-cases,
}
use mathlib.Core.List.{append_assoc, append-nil}
use syscap.Scripts.Writer.{
  Writer, buffer_size, new_writer, write_empty, write_string, write_all, flush,
}

-- Everything written so far, in order.
abbrev pub content : Writer → Bytes
content w = w.file ++ w.buffered

abbrev pub concat : List Bytes → Bytes
concat [] = []
concat (p ∷ ps) = p ++ concat ps

content-write_empty : (file p : Bytes) → content (write_empty file p) ≡ file ++ p
unfolding write_empty
content-write_empty file p = elim (Bool-cases (leb (length p) buffer_size)) [
  | inl fits ↦ rw fits
  | inr large ↦ rw large (append-nil (file ++ p))
]

content-write_string : (p : Bytes) (w : Writer) → content (write_string p w) ≡ content w ++ p
unfolding write_string
content-write_string p w =
    let room = buffer_size - length w.buffered in
    elim (Bool-cases (leb (length p) room)) [
      | inl fits ↦ rw fits (sym (append_assoc w.file w.buffered p))
      | inr large ↦ elim (Bool-cases (w.buffered == [])) [
        | inl empty ↦ rw large (
            rw empty (
              content-write_empty w.file p
              ∙ ap (λ b. b ++ p)
                  (sym (
                    ap (λ b. w.file ++ b) ((bytes_eq_iff w.buffered []).0 empty)
                    ∙ append-nil w.file))))
        | inr some_bytes ↦ rw large (
            rw some_bytes (
              content-write_empty (w.file ++ (w.buffered ++ take room p)) (drop room p)
              ∙ simp (append_assoc, take_append_drop room p)))
      ]
    ]

-- Whatever is written, the file and the buffer hold it in order.
pub content-write_all :
    (ps : List Bytes) (w : Writer) → content (write_all ps w) ≡ content w ++ concat ps
unfolding write_all
content-write_all [] w = sym (append-nil (content w))
content-write_all (p ∷ ps) w =
    content-write_all ps (write_string p w)
    ∙ ap (λ c. c ++ concat ps) (content-write_string p w)
    ∙ append_assoc (content w) p (concat ps)

-- A flush brings all of it to the file.
pub flush-write_all :
    (ps : List Bytes) (file : Bytes)
    → (flush (write_all ps (new_writer file))).file ≡ file ++ concat ps
unfolding flush
flush-write_all ps file =
    content-write_all ps (new_writer file) ∙ ap (λ s. s ++ concat ps) (append-nil file)

-- Between the writes: whole buffers in the file, and at most one in the buffer, which is not empty
-- once something was written.
record IsFilled (w : Writer) : Type 0 where
  file : length w.file % buffer_size ≡ 0
  buffered : length w.buffered ≤ buffer_size
  started : length w.buffered ≡ 0 → length w.file ≡ 0

le-true : (m n : ℕ) → m ≤ n → leb m n ≡ true
le-true m n h = ground arith

gt-of_leb : (m n : ℕ) → leb m n ≡ false → n < m
gt-of_leb m n h = ground arith

write_string-IsFilled :
    (p : Bytes) (w : Writer) → length p ≤ buffer_size → IsFilled w → IsFilled (write_string p w)
unfolding write_string write_empty
write_string-IsFilled p w small h =
    let room = buffer_size - length w.buffered in
    elim (Bool-cases (leb (length p) room)) [
      | inl fits ↦ rw fits (record {
        file = h.file;
        buffered =
            omega (arith, length-append w.buffered p, leb→le (length p) room fits, h.buffered);
        started = λ e. h.started (omega (arith, length-append w.buffered p, e));
      })
      | inr large ↦
          let more = gt-of_leb (length p) room large in
          elim (Bool-cases (w.buffered == [])) [
            | inl empty ↦
                absurd
                  (omega (arith, more, small, ap length ((bytes_eq_iff w.buffered []).0 empty)))
            | inr some_bytes ↦
                let (taken, dropped) = length-take-drop room p (omega (arith, more)) in
                rw large (
                  rw some_bytes (
                    rw (le-true (length (drop room p)) buffer_size (omega (arith, dropped, small)))
                      (record {
                        file = omega (
                          arith,
                          h.file,
                          h.buffered,
                          taken,
                          length-append w.file (w.buffered ++ take room p),
                          length-append w.buffered (take room p),
                        );
                        buffered = omega (arith, dropped, small);
                        started = λ e. absurd (omega (arith, dropped, more, e));
                      })))
          ]
    ]

write_all-IsFilled :
    (ps : List Bytes) (w : Writer)
    → All (λ p. length p ≤ buffer_size) ps
    → IsFilled w
    → IsFilled (write_all ps w)
unfolding write_all
write_all-IsFilled [] w small h = h
write_all-IsFilled (p ∷ ps) w small h =
    write_all-IsFilled ps (write_string p w) small.1 (write_string-IsFilled p w small.0 h)

-- Without a flush, the file holds the whole buffers that the writes have overrun.
pub length-write_all_file :
    (ps : List Bytes)
    → All (λ p. length p ≤ buffer_size) ps
    → (lost : Bytes) × ((write_all ps (new_writer [])).file ++ lost ≡ concat ps)
      × (length (write_all ps (new_writer [])).file
          ≡ buffer_size * ((length (concat ps) - 1) / buffer_size))
length-write_all_file ps small =
    let w = write_all ps (new_writer []) in
    let h : IsFilled w =
      write_all-IsFilled ps (new_writer []) small
        (record { file = refl; buffered = omega arith; started = λ e. refl }) in
    let whole : content w ≡ concat ps = content-write_all ps (new_writer []) in
    (
      w.buffered,
      whole,
      filled (length w.file) (length w.buffered) (length (concat ps)) h.file h.buffered h.started
          (sym (length-append w.file w.buffered) ∙ ap length whole),
    )
  where
    filled :
        (file buffered total : ℕ)
        → file % buffer_size ≡ 0
        → buffered ≤ buffer_size
        → (buffered ≡ 0 → file ≡ 0)
        → file + buffered ≡ total
        → file ≡ buffer_size * ((total - 1) / buffer_size)
    filled file zero total m le started e = omega (arith, started refl)
    filled file (suc buffered) total m le started e = omega arith

-- A writer of its own for one text.
pub flush-write_string :
    (p file : Bytes) → (flush (write_string p (new_writer file))).file ≡ file ++ p
unfolding flush
flush-write_string p file =
    content-write_string p (new_writer file) ∙ ap (λ s. s ++ p) (append-nil file)
