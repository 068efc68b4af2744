-- ===== src/Wal.antt =====
-- src/storage/WAL.h and WAL.cpp. The file is its bytes, or `none` where there is no file; whether
-- the file can be opened is an argument of the calls that open it. A write to the open stream goes
-- to `buffer`, and a flush brings it to the file; the disk takes what it is given. A call that
-- throws leaves the log as it was.
pub mod Replay
pub mod Sessions
pub mod Torn
use dist_cache.Prelude.{
  ℕ, Bool, true, false, List, [], ◌∷◌, ◌++◌, Option, none, some, ◌==◌, if◌then◌else◌, Result, ok,
  throws, and_then,
}
use dist_cache.Text.{Text, codes}
use dist_cache.Text.Lines.{getlines}
use dist_cache.Text.Words.{skip_space, read_word}

pub record Wal : Type 0 where
  pub filename : Text
  pub file : Option Text
  pub buffer : Text
  pub is_open : Bool

abbrev pub bytes_of : Option Text → Text
bytes_of none = []
bytes_of (some t) = t

-- Opening for appending makes the file if there is none.
unfoldable pub ensure_file_open : Wal → Bool → Result Wal
ensure_file_open w can_open =
    if w.is_open
    then ok w
    else if can_open
    then ok (record w { file = some (bytes_of w.file); is_open = true })
    else throws (codes "Failed to open WAL file: " ++ w.filename)

-- The constructor.
unfoldable pub open_log : Text → Option Text → Bool → Result Wal
unfolding ensure_file_open
open_log filename file can_open =
    ensure_file_open (record { filename = filename; file = file; buffer = []; is_open = false })
      can_open

unfoldable pub flush : Wal → Wal
flush w = record w { file = some (bytes_of w.file ++ w.buffer); buffer = [] }

abbrev pub write : Wal → Text → Wal
write w t = record w { buffer = w.buffer ++ t }

-- What `append` writes for one operation.
unfoldable pub log_line : Text → Text → Text → Text
log_line op key [] = op ++ (b' ' ∷ (key ++ b'\n' ∷ []))
log_line op key (c ∷ value) = op ++ (b' ' ∷ (key ++ (b' ' ∷ ((c ∷ value) ++ b'\n' ∷ []))))

unfoldable pub append : Wal → Text → Text → Text → Bool → Result Wal
unfolding ensure_file_open flush log_line
append w op key value can_open =
    and_then (ensure_file_open w can_open) λ w'. ok (flush (write w' (log_line op key value)))

-- `pack` is msgpack's, where the program is built with it.
unfoldable pub append_binary :
    Option (Text → Text → Text → Text) → Wal → Text → Text → Text → Bool → Result Wal
unfolding append flush
append_binary none w op key value can_open = append w op key value can_open
append_binary (some pack) w op key value can_open =
    and_then (ensure_file_open w can_open) λ w'. ok (flush (write w' (pack op key value)))

abbrev pub Record : Type 0
Record = Text × Text × Text

abbrev pub trim_one : Text → Text
trim_one [] = []
trim_one (c ∷ cs) = if c == b' ' then cs else c ∷ cs

-- The body of the loop of `replay`, on one line.
unfoldable pub parse_line : Text → Record
parse_line line =
    let (op, after_op) = read_word (skip_space line) in
    let (key, after_key) = read_word (skip_space after_op) in (op, key, trim_one after_key)

unfoldable pub replay_lines : List Text → List Record
unfolding parse_line
replay_lines [] = []
replay_lines ([] ∷ rest) = replay_lines rest
replay_lines ((c ∷ line) ∷ rest) = parse_line (c ∷ line) ∷ replay_lines rest

-- `replay` reads the file through a stream of its own.
unfoldable pub replay : Wal → List Record
unfolding replay_lines
replay w = elim w.file [ none ↦ [] | some t ↦ replay_lines (getlines b'\n' t) ]

unfoldable pub sync : Wal → Wal
unfolding flush
sync w = if w.is_open then flush w else w

-- The destructor: `close` flushes.
unfoldable pub close_log : Wal → Wal
unfolding flush sync
close_log w = record (sync w) { is_open = false }

-- The file is closed, then opened anew and cut to nothing, if it can be opened.
unfoldable pub truncate : Wal → Bool → Wal
unfolding close_log
truncate w can_open =
    let closed = close_log w in
    if can_open then record closed { file = some []; is_open = true } else closed
