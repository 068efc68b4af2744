-- ===== src/Persistence.antt =====
-- src/storage/MMapPersistence.h and MMapPersistence.cpp. The file is its bytes, or `none` where
-- there is no file that can be read. Whether it can be opened for writing, and how many bytes the
-- disk takes, are arguments. A call returns the file that it leaves beside its result, since a call
-- that throws may have changed the file.
pub mod Escape
pub mod Snapshot
pub mod Contents
use dist_cache.Prelude.{
  ℕ, zero, suc, ◌+◌, Bool, true, false, List, [], ◌∷◌, ◌++◌, Option, none, some, ◌==◌, leb, length,
  take, if◌then◌else◌, Result, ok, throws, map_some, and_then,
}
use dist_cache.Text.{Text, text_dec, codes}
use dist_cache.Text.Lines.{getlines}
use dist_cache.Dict.{insert}

abbrev pub Map : Type 0
Map = List (Text × Text)

-- What stands before the last slash of a path.
unfoldable pub before_slash : Text → Option Text
before_slash [] = none
before_slash (c ∷ cs) = elim (before_slash cs) [
  | some dir ↦ some (c ∷ dir)
  | none ↦ if c == b'/' then some [] else none
]

unfoldable pub drop_slashes : Text → Text
drop_slashes [] = []
drop_slashes (c ∷ cs) = elim (drop_slashes cs) [
  | [] ↦ if c == b'/' then [] else c ∷ []
  | d ∷ ds ↦ c ∷ d ∷ ds
]

abbrev pub or_root : Text → Text
or_root [] = b'/' ∷ []
or_root (c ∷ cs) = c ∷ cs

-- `file_path.parent_path()`, or `none` where `has_parent_path()` is false.
unfoldable pub parent_path : Text → Option Text
unfolding before_slash drop_slashes
parent_path filename = map_some (λ dir. or_root (drop_slashes dir)) (before_slash filename)

-- `create_directories` is the file system's: it makes the directory, or throws.
unfoldable pub ensure_directory_exists : (Text → Result (Unit {0})) → Text → Result (Unit {0})
unfolding parent_path
ensure_directory_exists create_directories filename = elim (parent_path filename) [
  | none ↦ ok tt
  | some dir ↦ elim (create_directories dir) [
    | ok _ ↦ ok tt
    | throws what ↦ throws (codes "Failed to create directory: " ++ what)
  ]
]

-- The constructor: the object is its file name.
unfoldable pub open_persistence : (Text → Result (Unit {0})) → Text → Result Text
unfolding ensure_directory_exists
open_persistence create_directories filename =
    and_then (ensure_directory_exists create_directories filename) λ _. ok filename

unfoldable pub escape_byte : ℕ → Text
escape_byte c =
    if c == b' '
    then b'\\' ∷ b's' ∷ []
    else if c == b'\n'
    then b'\\' ∷ b'n' ∷ []
    else if c == b'\r'
    then b'\\' ∷ b'r' ∷ []
    else if c == b'\t'
    then b'\\' ∷ b't' ∷ []
    else if c == b'\\'
    then b'\\' ∷ b'\\' ∷ []
    else c ∷ []

unfoldable pub escape_string : Text → Text
unfolding escape_byte
escape_string [] = []
escape_string (c ∷ cs) = escape_byte c ++ escape_string cs

-- The byte that a backslash and this byte stand for.
unfoldable pub unescaped : ℕ → Option ℕ
unescaped c =
    if c == b's'
    then some b' '
    else if c == b'n'
    then some b'\n'
    else if c == b'r'
    then some b'\r'
    else if c == b't'
    then some b'\t'
    else if c == b'\\'
    then some b'\\'
    else none

abbrev unescape_pair : ℕ → Option ℕ → Text → Text → Text
unescape_pair c none skip stay = c ∷ stay
unescape_pair c (some d) skip stay = d ∷ skip

unfoldable pub unescape_string : Text → Text
unfolding unescaped
unescape_string [] = []
unescape_string (c ∷ []) = c ∷ []
unescape_string (c ∷ d ∷ cs) =
    let skip = unescape_string cs in
    let stay = unescape_string (d ∷ cs) in
    if c == b'\\' then unescape_pair c (unescaped d) skip stay else c ∷ stay

-- The loop of `snapshot`.
unfoldable pub render : Map → Text
unfolding escape_string
render [] = []
render ((key, value) ∷ rest) =
    (escape_string key ++ (b' ' ∷ (escape_string value ++ b'\n' ∷ []))) ++ render rest

unfoldable pub snapshot : Text → Option Text → Map → Bool → ℕ → Option Text × Result (Unit {0})
unfolding render
snapshot filename file entries can_open room =
    if can_open
    then (let text = render entries in
        if leb (length text) room
        then (some text, ok tt)
        else (some (take room text), throws (codes "Failed to write to file: " ++ filename)))
    else (file, throws (codes "Failed to open file for writing: " ++ filename))

-- `line.find(' ')` and the two `substr`.
unfoldable pub split_entry : Text → Option (Text × Text)
split_entry [] = none
split_entry (c ∷ cs) =
    let rest = split_entry cs in
    if c == b' ' then some ([], cs) else elim rest [ none ↦ none | some (k, v) ↦ some (c ∷ k, v) ]

unfoldable pub load_lines : List Text → Map → Map
unfolding split_entry unescape_string
load_lines [] entries = entries
load_lines (line ∷ rest) entries = load_lines rest (elim (split_entry line) [
  | none ↦ entries
  | some (k, v) ↦ insert text_dec (unescape_string k) (unescape_string v) entries
])

unfoldable pub load : Option Text → Map
unfolding load_lines
load none = []
load (some text) = load_lines (getlines b'\n' text) []

-- The work of the detached thread, on its own copy of the map: the file, and what is printed.
unfoldable pub async_snapshot : Text → Option Text → Map → Bool → ℕ → Option Text × Text
unfolding snapshot
async_snapshot filename file entries can_open room =
    let (file', result) = snapshot filename file entries can_open room in
    (
      file',
      elim result [
        | ok _ ↦ codes "[Persistence] Async snapshot completed for " ++ (filename ++ b'\n' ∷ [])
        | throws what ↦ codes "[Persistence] Async snapshot failed: " ++ (what ++ b'\n' ∷ [])
      ],
    )

unfoldable pub file_exists : Option Text → Bool
file_exists none = false
file_exists (some text) = true

unfoldable pub get_file_size : Option Text → ℕ
get_file_size none = 0
get_file_size (some text) = length text

-- `what` is the text of the error where the copy fails. The first part is the backup's file.
unfoldable pub backup_file :
    Option Text → Option Text → Bool → Text → Option Text × Result (Unit {0})
backup_file none backup can_copy what = (backup, throws (codes "Failed to create backup: " ++ what))
backup_file (some text) backup can_copy what =
    if can_copy
    then (some text, ok tt)
    else (backup, throws (codes "Failed to create backup: " ++ what))
