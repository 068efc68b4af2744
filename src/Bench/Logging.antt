-- ===== src/Bench/Logging.antt =====
-- `benchmark_persistence_operations` of benchmark.cpp: the log and the snapshot, written and read.
use dist_cache.Prelude.{
  ℕ, zero, suc, ◌≤◌, ◌≡◌, refl, ap, sym, ◌∙◌, Bool, true, List, [], ◌∷◌, ◌++◌, append-nil,
  append_assoc, Option, none, some, arith, length, Result, ok, and_then,
}
use dist_cache.Text.{Text, text_dec, codes}
use dist_cache.Text.Lines.{getlines}
use dist_cache.Dict.{find, insert, Distinct, insert-Distinct}
use dist_cache.Wal.{Wal, Record, open_log, append, replay}
use dist_cache.Wal.Replay.{IsTidy, IsLoggable, replay-append}
use dist_cache.Persistence.{Map, open_persistence, render, snapshot, load}
use dist_cache.Persistence.Snapshot.{load-snapshot}
use dist_cache.Startup.Logged.{set-IsWord}
use dist_cache.Bench.{numbered_key, numbered_value, numbered_key-IsWord, numbered_value-Lacks}

-- The appends from number `i` on. The log is open, so that no append opens it.
unfoldable pub append_loop : ℕ → ℕ → Wal → Result Wal
append_loop zero i w = ok w
append_loop (suc left) i w =
    and_then (append w (codes "SET") (numbered_key i) (numbered_value i) true)
      (append_loop left (suc i))

-- The loop that makes `test_data`.
unfoldable pub fill_data : ℕ → ℕ → Map → Map
fill_data zero i m = m
fill_data (suc left) i m =
    fill_data left (suc i) (insert text_dec (numbered_key i) (numbered_value i) m)

-- What `replay` returned, and what `load` returned.
unfoldable pub persistence_operations :
    ℕ
    → ℕ
    → (Text → Result (Unit {0}))
    → Option Text
    → Bool
    → Option Text
    → Bool
    → ℕ
    → Result (List Record × Map)
unfolding open_log append_loop replay open_persistence fill_data snapshot load
persistence_operations num_wal_ops num_entries create_directories wal_file can_open snapshot_file
      can_write room =
    and_then (open_log (codes "benchmark_wal.log") wal_file can_open) λ wal.
      and_then (append_loop num_wal_ops 0 wal) λ wal'.
        and_then (open_persistence create_directories (codes "benchmark_snapshot.dat")) λ filename.
          let (file, saved) =
            snapshot filename snapshot_file (fill_data num_entries 0 []) can_write room in
          and_then saved λ _. ok (replay wal', load file)

unfoldable pub benchmark_persistence_operations :
    (Text → Result (Unit {0}))
    → Option Text
    → Bool
    → Option Text
    → Bool
    → ℕ
    → Result (List Record × Map)
unfolding persistence_operations
benchmark_persistence_operations = persistence_operations 50_000 10_000

-- The records that the loop writes.
abbrev pub written : ℕ → ℕ → List Record
written zero i = []
written (suc left) i = (codes "SET", numbered_key i, numbered_value i) ∷ written left (suc i)

append_loop-replay :
    (left i : ℕ) (w : Wal)
    → IsTidy w
    → w.is_open ≡ true
    → (w' : Wal) × (append_loop left i w ≡ ok w') × (replay w' ≡ replay w ++ written left i)
unfolding append_loop
append_loop-replay zero i w tidy opened = (w, refl, sym (append-nil (replay w)))
append_loop-replay (suc left) i w tidy opened =
    let loggable : IsLoggable (codes "SET") (numbered_key i) (numbered_value i) = record {
      op_word = set-IsWord;
      key_word = numbered_key-IsWord i;
      one_line = numbered_value-Lacks i;
    } in
    let (w₁, appended, tidy', opened', read) =
      replay-append w (codes "SET") (numbered_key i) (numbered_value i) true tidy
        (ground (arith, opened)) loggable in
    let (w₂, rest, all) = append_loop-replay left (suc i) w₁ tidy' opened' in
    (
      w₂,
      rw appended rest,
      all
          ∙ ap (λ l. l ++ written left (suc i)) read
          ∙ append_assoc (replay w) _ (written left (suc i)),
    )

fill_data-Distinct :
    (left i : ℕ) (m : Map) → Distinct text_dec m → Distinct text_dec (fill_data left i m)
unfolding fill_data
fill_data-Distinct zero i m d = d
fill_data-Distinct (suc left) i m d =
    fill_data-Distinct left (suc i) _
      (insert-Distinct text_dec (numbered_key i) (numbered_value i) m d)

replay_empty :
    (filename : Text)
    → replay (record { filename = filename; file = some []; buffer = []; is_open = true }) ≡ []
unfolding replay getlines
replay_empty filename = refl

-- Where there is no log yet, the files can be opened and the disk has room for the snapshot, the
-- benchmark runs to its end: the replay returns the records that were appended, all of them and in
-- their order, and the loaded map gives every key of the test data back with its value, and no other.
pub persistence_operations-read_back :
    (num_wal_ops num_entries : ℕ) (create_directories : Text → Result (Unit {0}))
    (snapshot_file : Option Text) (room : ℕ)
    → length (render (fill_data num_entries 0 [])) ≤ room
    → (loaded : Map) × (persistence_operations num_wal_ops num_entries create_directories none true
          snapshot_file true room
        ≡ ok (written num_wal_ops 0, loaded))
      × ((q : Text) → find text_dec q loaded ≡ find text_dec q (fill_data num_entries 0 []))
unfolding persistence_operations
persistence_operations-read_back num_wal_ops num_entries create_directories snapshot_file room
      fits =
    let data_ = fill_data num_entries 0 [] in
    let name = codes "benchmark_snapshot.dat" in
    let wal : Wal = record {
      filename = codes "benchmark_wal.log";
      file = some [];
      buffer = [];
      is_open = true;
    } in
    let (wal', ran, read) =
      append_loop-replay num_wal_ops 0 wal (record { flushed = refl; whole = tt }) refl in
    let read_all : replay wal' ≡ written num_wal_ops 0 =
      read ∙ ap (λ l. l ++ written num_wal_ops 0) (replay_empty (codes "benchmark_wal.log")) in
    let distinct = fill_data-Distinct num_entries 0 [] tt in
    let saved = (load-snapshot name snapshot_file data_ room [] distinct fits).0 in
    (
      load (snapshot name snapshot_file data_ true room).0,
      rw (ran, saved, read_all) refl,
      λ q. (load-snapshot name snapshot_file data_ room q distinct fits).1,
    )
