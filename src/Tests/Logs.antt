-- ===== src/Tests/Logs.antt =====
-- WAL on concrete logs.
use dist_cache.Prelude.{◌≡◌, refl, true, false, List, [], ◌∷◌, ◌++◌, none, some, ok}
use dist_cache.Text.{codes}
use dist_cache.Text.Lines.{getlines}
use dist_cache.Text.Words.{IsWord, is_space, skip_space, read_word}
use dist_cache.Wal.{Wal, Record, append, append_binary, replay}
use dist_cache.Wal.Replay.{IsTidy, IsLoggable, replay-append}
use dist_cache.Prelude.{length, ◌≤◌}
use dist_cache.Wal.{log_line}
use dist_cache.Wal.Replay.{line_text}
use dist_cache.Wal.Torn.{cut_short, replay-cut_short, append_after_cut}
use dist_cache.Wal.Sessions.{AreLoggable, replay-append_two_lines}

abbrev log : Wal
log = record {
  filename = codes "wal.log";
  file = some (codes "SET k v\n");
  buffer = [];
  is_open = true;
}

log-IsTidy : IsTidy log
log-IsTidy = record { flushed = refl; whole = refl }

is_word : IsWord (codes "SET") × IsWord (codes "DEL") × IsWord (codes "k1") × IsWord (codes "k2")
unfolding is_space
is_word = (
  ((λ e. cc), (refl, (refl, (refl, tt)))),
  ((λ e. cc), (refl, (refl, (refl, tt)))),
  ((λ e. cc), (refl, (refl, tt))),
  ((λ e. cc), (refl, (refl, tt))),
)

session :
    append log (codes "SET") (codes "k1") (codes "a b") false
    ≡ ok (record log { file = some (codes "SET k v\nSET k1 a b\n") })
unfolding append
session = refl

replayed :
    replay (record log { file = some (codes "SET k v\n\nDEL k\n x\t y  z") })
    ≡ (codes "SET", codes "k", codes "v")
      ∷ (codes "DEL", codes "k", [])
      ∷ (codes "x", codes "y", codes " z")
      ∷ []
unfolding replay getlines skip_space read_word is_space
replayed = refl

text_fallback :
    append_binary none log (codes "SET") (codes "k1") [] true
    ≡ append log (codes "SET") (codes "k1") [] true
unfolding append_binary
text_fallback = refl

set_k1 : IsLoggable (codes "SET") (codes "k1") (codes "a b")
set_k1 = record { op_word = is_word.0; key_word = is_word.2; one_line = (refl, (refl, (refl, tt))) }

del_k2 : IsLoggable (codes "DEL") (codes "k2") []
del_k2 = record { op_word = is_word.1; key_word = is_word.3; one_line = tt }

abbrev two_records : List Record
two_records = (codes "SET", codes "k1", codes "a b") ∷ (codes "DEL", codes "k2", []) ∷ []

two_records-AreLoggable : AreLoggable two_records
two_records-AreLoggable = (set_k1, (del_k2, tt))

replay-append_example :
    (w' : Wal) × (append log (codes "SET") (codes "k1") (codes "a b") false ≡ ok w')
    × IsTidy w'
    × (w'.is_open ≡ true)
    × (replay w' ≡ replay log ++ (codes "SET", codes "k1", codes "a b") ∷ [])
replay-append_example =
    replay-append log (codes "SET") (codes "k1") (codes "a b") false log-IsTidy refl set_k1

replay-append_two_lines_example :
    (w' : Wal) × (append log (codes "SET") (codes "k1") (codes "a b\nDEL k2") true ≡ ok w')
    × (replay w'
        ≡ replay log ++ (codes "SET", codes "k1", codes "a b") ∷ (codes "DEL", codes "k2", []) ∷ [])
replay-append_two_lines_example =
    replay-append_two_lines log (codes "SET") (codes "k1") (codes " b") (codes "DEL") (codes "k2")
      b'a' true log-IsTidy refl set_k1 del_k2

replay-cut_short_example :
    (last : List Record) × (replay
        (cut_short log (log_line (codes "SET") (codes "k1") (codes "a b")) 6)
      ≡ replay log ++ last)
    × (length last ≤ 1)
replay-cut_short_example =
    replay-cut_short log (codes "SET") (codes "k1") (codes "a b") 6 log-IsTidy set_k1

append_after_cut_example :
    let line = line_text (codes "SET") (codes "k1") (codes "a b") in
    (w' : Wal) × (append (cut_short log line (length line)) (codes "DEL") (codes "k2") [] true
      ≡ ok w')
    × (replay w' ≡ replay log ++ (codes "SET", codes "k1", codes "a bDEL k2") ∷ [])
append_after_cut_example =
    append_after_cut log (codes "SET") (codes "k1") (codes " b") (codes "DEL") (codes "k2") [] b'a'
      log-IsTidy set_k1 del_k2
