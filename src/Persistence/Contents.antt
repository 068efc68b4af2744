-- ===== src/Persistence/Contents.antt =====
-- A snapshot up to the order of iteration of std::unordered_map, which the standard leaves open: the
-- map as its keys and values alone.
use mathlib.Core.Quot
use mathlib.Core.Quot.{Quot}
use dist_cache.Prelude.{ℕ, ◌≡◌, ◌≤◌, [], Option, true, length, ok}
use dist_cache.Text.{Text, text_dec}
use dist_cache.Dict.{find, Distinct}
use dist_cache.Persistence.{Map, render, snapshot, load}
use dist_cache.Persistence.Snapshot.{load-snapshot}

-- Two maps have the same keys with the same values.
abbrev pub SameEntries : Map → Map → Type 0
SameEntries m n = (q : Text) → find text_dec q m ≡ find text_dec q n

abbrev pub Contents : Type 0
Contents = Quot SameEntries

-- Where the file can be opened and the disk has room for the text, `snapshot` succeeds, and the map
-- that `load` makes of the file is the map that was saved, as `operator==` of std::unordered_map
-- compares them: the order of iteration is forgotten. Keys and values may hold any bytes, and no key
-- has two entries.
pub snapshot_contents :
    (filename : Text) (file : Option Text) (entries : Map) (room : ℕ)
    → Distinct text_dec entries
    → length (render entries) ≤ room
    → ((snapshot filename file entries true room).1 ≡ ok tt)
      × (◌≡◌ {A = Contents}
          (Quot.mk (load (snapshot filename file entries true room).0))
          (Quot.mk entries))
snapshot_contents filename file entries room d h = (
  (load-snapshot filename file entries room [] d h).0,
  Quot.sound (λ q. (load-snapshot filename file entries room q d h).1),
)
