-- ===== src/Scripts/Writer.antt =====
-- scripts/: what a bufio.Writer with its default size puts into its file, where writing to the file
-- succeeds.
pub mod Laws
use syscap.Base.{
  ℕ, ◌-◌, List, [], ◌∷◌, ◌++◌, if◌then◌else◌, leb, ◌==◌, bytes_has_eq, Bytes, length, take, drop,
}

pub record Writer : Type 0 where
  pub file : Bytes
  pub buffered : Bytes

abbrev pub buffer_size : ℕ
buffer_size = 4096

-- bufio.NewWriter on a file with this content.
abbrev pub new_writer : Bytes → Writer
new_writer file = record { file = file; buffered = [] }

-- What does not fit into an empty buffer goes to the file at once.
unfoldable pub write_empty : Bytes → Bytes → Writer
write_empty file p =
    if leb (length p) buffer_size
    then record { file = file; buffered = p }
    else record { file = file ++ p; buffered = [] }

-- WriteString: what has no room fills the buffer, which then goes to the file.
unfoldable pub write_string : Bytes → Writer → Writer
unfolding write_empty
write_string p w =
    let room = buffer_size - length w.buffered in
    if leb (length p) room
    then record w { buffered = w.buffered ++ p }
    else if w.buffered == []
    then write_empty w.file p
    else write_empty (w.file ++ (w.buffered ++ take room p)) (drop room p)

unfoldable pub write_all : List Bytes → Writer → Writer
unfolding write_string
write_all [] w = w
write_all (p ∷ ps) w = write_all ps (write_string p w)

unfoldable pub flush : Writer → Writer
flush w = new_writer (w.file ++ w.buffered)
