-- ===== src/Args/OpenFlags.antt =====
-- parse_arg.go: decodeOpenFlags against a description with no loop.
use syscap.Args.Decode.{
  scan, is_set, names, sort_strings, with_remaining, o_accmode, access_mode, tmpfile, sync,
  decode_open_flags,
}
use syscap.Args.Scan.{total, Disjoint, is_set-Sound, is_set-Local, total-scan, scan-keep}
use syscap.Args.Tables.{
  NamedValue, o_directory, o_dsync, o_tmpfile, o_sync, named, o_append, o_async, o_cloexec, o_creat,
  o_direct, o_excl, o_large, o_noatime, o_noctty, o_nofollow, o_nonblock, o_path, o_trunc,
  open_flag_bits,
}
use syscap.Base.{
  ℕ, ◌-◌, ◌<◌, Bool, not, ◌&&◌, List, ◌∷◌, bit_and, ◌≡◌, refl, ◌∙◌, arith, if◌then◌else◌, ◌==◌,
  nat_eq, string_eq, keep, clear, codes, join, false, All, keep_congr, and-clear_disjoint,
  and-clear_subset,
}

open_flag_bits-Disjoint : Disjoint open_flag_bits
unfolding open_flag_bits
open_flag_bits-Disjoint = omega arith

-- An entry of the open table that is set in `raw`, and whose bits O_TMPFILE or O_SYNC did not take.
pub holds : ℕ → NamedValue → Bool
holds raw d =
    is_set raw d
    && not (d.value == o_directory && is_set raw tmpfile)
    && not (d.value == o_dsync && is_set raw sync)

abbrev directory : NamedValue
directory = named "O_DIRECTORY" o_directory

abbrev dsync : NamedValue
dsync = named "O_DSYNC" o_dsync

abbrev open_found : ℕ → List NamedValue × ℕ
open_found raw = scan is_set (tmpfile ∷ (sync ∷ open_flag_bits)) (clear raw o_accmode)

-- What clearing `d`, if it is set, does to the test of another entry.
abbrev without : ℕ → NamedValue → ℕ
without r d = if is_set r d then clear r d.value else r

is_set-without :
    (r : ℕ) (d e : NamedValue) → bit_and d.value e.value ≡ 0 → is_set (without r d) e ≡ is_set r e
unfolding is_set
is_set-without r d e apart = ground (arith, and-clear_disjoint r d.value e.value apart)

is_set-without_part :
    (r : ℕ) (d e : NamedValue)
    → bit_and d.value e.value ≡ e.value
    → 0 < e.value
    → is_set (without r d) e ≡ (is_set r e && not (is_set r d))
unfolding is_set
is_set-without_part r d e part pos = ground (arith, and-clear_subset r d.value e.value part)

-- What the loop over openFlagBits starts from.
abbrev open_start : ℕ → ℕ
open_start raw = without (without (clear raw o_accmode) tmpfile) sync

is_set-clear_accmode :
    (raw : ℕ) (d : NamedValue)
    → bit_and o_accmode d.value ≡ 0
    → is_set (clear raw o_accmode) d ≡ is_set raw d
unfolding is_set
is_set-clear_accmode raw d apart = rw (and-clear_disjoint raw o_accmode d.value apart)

is_set-without-tmpfile-sync :
    (raw : ℕ) → is_set (without (clear raw o_accmode) tmpfile) sync ≡ is_set raw sync
is_set-without-tmpfile-sync raw =
    is_set-without (clear raw o_accmode) tmpfile sync refl ∙ is_set-clear_accmode raw sync refl

-- An entry apart from the access mode, O_TMPFILE and O_SYNC.
plain_entry :
    (raw : ℕ) (d : NamedValue)
    → bit_and o_accmode d.value ≡ 0
    → bit_and o_tmpfile d.value ≡ 0
    → bit_and o_sync d.value ≡ 0
    → (d.value == o_directory) ≡ false
    → (d.value == o_dsync) ≡ false
    → is_set (open_start raw) d ≡ holds raw d
unfolding holds
plain_entry raw d a t s dir dsync =
    is_set-without (without (clear raw o_accmode) tmpfile) sync d s
    ∙ is_set-without (clear raw o_accmode) tmpfile d t
    ∙ is_set-clear_accmode raw d a
    ∙ ground arith

directory_entry : (raw : ℕ) → is_set (open_start raw) directory ≡ holds raw directory
unfolding holds
directory_entry raw =
    is_set-without (without (clear raw o_accmode) tmpfile) sync directory refl
    ∙ is_set-without_part (clear raw o_accmode) tmpfile directory refl (omega arith)
    ∙ rw (is_set-clear_accmode raw directory refl, is_set-clear_accmode raw tmpfile refl)
        (ground arith)

dsync_entry : (raw : ℕ) → is_set (open_start raw) dsync ≡ holds raw dsync
unfolding holds
dsync_entry raw =
    is_set-without_part (without (clear raw o_accmode) tmpfile) sync dsync refl (omega arith)
    ∙ rw
        (
          is_set-without (clear raw o_accmode) tmpfile dsync refl,
          is_set-without-tmpfile-sync raw,
          is_set-clear_accmode raw dsync refl,
        )
        (ground arith)

open_entries : (raw : ℕ) → All (λ d. is_set (open_start raw) d ≡ holds raw d) open_flag_bits
unfolding open_flag_bits
open_entries raw = (
  plain_entry raw (named "O_APPEND" o_append) refl refl refl refl refl,
  (
    plain_entry raw (named "O_ASYNC" o_async) refl refl refl refl refl,
    (
      plain_entry raw (named "O_CLOEXEC" o_cloexec) refl refl refl refl refl,
      (
        plain_entry raw (named "O_CREAT" o_creat) refl refl refl refl refl,
        (
          plain_entry raw (named "O_DIRECT" o_direct) refl refl refl refl refl,
          (
            directory_entry raw,
            (
              dsync_entry raw,
              (
                plain_entry raw (named "O_EXCL" o_excl) refl refl refl refl refl,
                (
                  plain_entry raw (named "O_LARGEFILE" o_large) refl refl refl refl refl,
                  (
                    plain_entry raw (named "O_NOATIME" o_noatime) refl refl refl refl refl,
                    (
                      plain_entry raw (named "O_NOCTTY" o_noctty) refl refl refl refl refl,
                      (
                        plain_entry raw (named "O_NOFOLLOW" o_nofollow) refl refl refl refl refl,
                        (
                          plain_entry raw (named "O_NONBLOCK" o_nonblock) refl refl refl refl refl,
                          (
                            plain_entry raw (named "O_PATH" o_path) refl refl refl refl refl,
                            (
                              plain_entry raw (named "O_TRUNC" o_trunc) refl refl refl refl refl,
                              tt,
                            ),
                          ),
                        ),
                      ),
                    ),
                  ),
                ),
              ),
            ),
          ),
        ),
      ),
    ),
  ),
)

scan_first :
    (raw : ℕ) (d : NamedValue) (ds : List NamedValue)
    → (scan is_set (d ∷ ds) raw).0 ≡ (
        if is_set raw d
        then d ∷ (scan is_set ds (without raw d)).0
        else (scan is_set ds (without raw d)).0)
unfolding scan
scan_first raw d ds = refl

holds-tmpfile : (raw : ℕ) → holds raw tmpfile ≡ is_set raw tmpfile
unfolding holds
holds-tmpfile raw = ground arith

holds-sync : (raw : ℕ) → holds raw sync ≡ is_set raw sync
unfolding holds
holds-sync raw = ground arith

-- The loops find O_TMPFILE and O_SYNC where all their bits are set, and any other entry where its
-- bits are set, but O_DIRECTORY not beside O_TMPFILE, nor O_DSYNC beside O_SYNC.
open_found-holds :
    (raw : ℕ) → (open_found raw).0 ≡ keep (holds raw) (tmpfile ∷ (sync ∷ open_flag_bits))
open_found-holds raw = cc (
  scan_first (clear raw o_accmode) tmpfile (sync ∷ open_flag_bits),
  scan_first (without (clear raw o_accmode) tmpfile) sync open_flag_bits,
  scan-keep is_set open_flag_bits (open_start raw) is_set-Local open_flag_bits-Disjoint,
  keep_congr (is_set (open_start raw)) (holds raw) open_flag_bits (open_entries raw),
  is_set-clear_accmode raw tmpfile refl,
  is_set-without-tmpfile-sync raw,
  holds-tmpfile raw,
  holds-sync raw,
)

-- What the loops leave over.
open_rest : (raw : ℕ) → (open_found raw).1 ≡ raw - bit_and raw o_accmode - total (open_found raw).0
unfolding clear
open_rest raw = omega (
  arith,
  total-scan is_set (tmpfile ∷ (sync ∷ open_flag_bits)) (clear raw o_accmode) is_set-Sound,
)

-- decodeOpenFlags names the access mode (a number where it is 3) and, sorted with it, exactly
-- these flags: O_TMPFILE and O_SYNC where all their bits are set, O_DIRECTORY where its bit is set
-- and O_TMPFILE is not, O_DSYNC where its bit is set and O_SYNC is not, and every other entry of
-- openFlagBits whose bit is set. The bits of none of these follow in hexadecimal.
pub decode_open_flags-eq-text :
    (raw : ℕ)
    → let found = keep (holds raw) (tmpfile ∷ (sync ∷ open_flag_bits)) in
      let mode = bit_and raw o_accmode in
      decode_open_flags raw
      ≡ join (codes "|") (
          with_remaining (sort_strings (access_mode mode ∷ names found)) (raw - mode - total found))
unfolding decode_open_flags
decode_open_flags-eq-text raw = rw (open_rest raw, open_found-holds raw)
