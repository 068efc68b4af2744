-- ===== src/Tests/Snapshots.antt =====
-- MMapPersistence on concrete maps.
use mathlib.Core.Quot
use dist_cache.Persistence.Contents.{Contents, snapshot_contents}
use dist_cache.Persistence.{parent_path, open_persistence}
use dist_cache.Prelude.{throws}
use dist_cache.Prelude.{◌≡◌, refl, true, false, [], ◌∷◌, ◌++◌, none, some, ok, arith}
use dist_cache.Text.{text_dec, codes}
use dist_cache.Text.Lines.{getlines}
use dist_cache.Dict.{find, insert}
use dist_cache.Persistence.{
  Map, render, snapshot, load, async_snapshot, file_exists, get_file_size, backup_file,
}

abbrev entries : Map
entries = (codes "a b", codes "x\ny") ∷ ([], codes "\\s") ∷ []

text_of : render entries ≡ codes "a\\sb x\\ny\n \\\\s\n"
unfolding render
text_of = refl

loaded :
    load (some (codes "a\\sb x\\ny\nbad\n\n \\\\s\nk\\q v"))
    ≡ entries ++ (codes "k\\q", codes "v") ∷ []
unfolding load getlines insert text_dec
loaded = refl

async_failed :
    async_snapshot (codes "f") none entries false 9
    ≡ (none, codes "[Persistence] Async snapshot failed: Failed to open file for writing: f\n")
unfolding async_snapshot
async_failed = refl

sizes :
    (file_exists none ≡ false)
    × (get_file_size (some (codes "abc")) ≡ 3)
    × ((backup_file (some (codes "abc")) none true []).0 ≡ some (codes "abc"))
unfolding file_exists get_file_size backup_file
sizes = (refl, refl, refl)

snapshot_contents_example :
    ((snapshot (codes "f") none entries true 99).1 ≡ ok tt)
    × (◌≡◌ {A = Contents}
        (Quot.mk (load (snapshot (codes "f") none entries true 99).0))
        (Quot.mk entries))
unfolding find text_dec render
snapshot_contents_example =
    snapshot_contents (codes "f") none entries 99 (refl, (refl, tt)) (omega arith)

parents :
    (parent_path (codes "snapshot.dat") ≡ none)
    × (parent_path (codes "data/a//f") ≡ some (codes "data/a"))
    × (parent_path (codes "/f") ≡ some (codes "/"))
unfolding parent_path
parents = (refl, refl, refl)

directory_fails :
    open_persistence (λ dir. throws dir) (codes "data/f")
    ≡ throws (codes "Failed to create directory: data")
unfolding open_persistence parent_path
directory_fails = refl
