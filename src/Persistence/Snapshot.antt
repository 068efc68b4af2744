-- ===== src/Persistence/Snapshot.antt =====
-- What `load` makes of the file that `snapshot` leaves.
use dist_cache.Prelude.{
  ℕ, ◌≡◌, ◌≤◌, refl, ap, ◌∙◌, inl, inr, true, List, [], ◌∷◌, ◌++◌, append_assoc, Option, none, some,
  arith, All-append, length, leb, ok,
}
use dist_cache.Text.{Text, text_dec}
use dist_cache.Text.Lines.{Lacks, getlines, getlines_line}
use dist_cache.Dict.{find, insert, Distinct, find-insert}
use dist_cache.Persistence.Escape.{escape-Lacks, unescape-escape}
use dist_cache.Persistence.{Map, escape_string, render, snapshot, split_entry, load_lines, load}

split_entry-entry : (k v : Text) → Lacks b' ' k → split_entry (k ++ (b' ' ∷ v)) ≡ some (k, v)
unfolding split_entry
split_entry-entry [] v h = refl
split_entry-entry (c ∷ k) v h = ground (arith, h.0, split_entry-entry k v h.1)

entry_line : Text → Text → Text
entry_line k v = escape_string k ++ (b' ' ∷ escape_string v)

getlines-render :
    (k v : Text) (rest : Map)
    → getlines b'\n' (render ((k, v) ∷ rest)) ≡ entry_line k v ∷ getlines b'\n' (render rest)
unfolding render entry_line
getlines-render k v rest =
    let one : Lacks b'\n' (escape_string k ++ (b' ' ∷ escape_string v)) =
      All-append _ (escape_string k) _ (escape-Lacks b'\n' k (inr refl))
        (refl, escape-Lacks b'\n' v (inr refl)) in
    ap (getlines b'\n') (simp append_assoc)
    ∙ getlines_line b'\n' (escape_string k ++ (b' ' ∷ escape_string v)) (render rest) one

load_lines-entry :
    (k v : Text) (rest : List Text) (acc : Map)
    → load_lines (entry_line k v ∷ rest) acc ≡ load_lines rest (insert text_dec k v acc)
unfolding load_lines entry_line
load_lines-entry k v rest acc =
    rw
      (
        split_entry-entry (escape_string k) (escape_string v) (escape-Lacks b' ' k (inl refl)),
        unescape-escape k,
        unescape-escape v,
      )
      refl

-- The entries are inserted in the order of the file.
insert_all : Map → Map → Map
insert_all [] acc = acc
insert_all ((k, v) ∷ rest) acc = insert_all rest (insert text_dec k v acc)

load_lines-render :
    (entries acc : Map) → load_lines (getlines b'\n' (render entries)) acc ≡ insert_all entries acc
unfolding insert_all
load_lines-render [] acc = unfold load_lines render getlines in refl
load_lines-render ((k, v) ∷ rest) acc =
    ap (λ l. load_lines l acc) (getlines-render k v rest)
    ∙ load_lines-entry k v _ acc
    ∙ load_lines-render rest (insert text_dec k v acc)

find-insert_all :
    (q : Text) (entries acc : Map)
    → Distinct text_dec entries
    → find text_dec q (insert_all entries acc)
      ≡ elim (find text_dec q entries) [ none ↦ find text_dec q acc | some v ↦ some v ]
unfolding insert_all find
find-insert_all q [] acc d = refl
find-insert_all q ((k, v) ∷ rest) acc d =
    ground
      (arith, find-insert_all q rest (insert text_dec k v acc) d.1, find-insert text_dec k q v acc)

-- Where the file can be opened and the disk has room for the text, `snapshot` succeeds, and `load`
-- gives every key back with its value, and no other key. Keys and values may hold any bytes, and
-- no key has two entries.
pub load-snapshot :
    (filename : Text) (file : Option Text) (entries : Map) (room : ℕ) (q : Text)
    → Distinct text_dec entries
    → length (render entries) ≤ room
    → ((snapshot filename file entries true room).1 ≡ ok tt)
      × (find text_dec q (load (snapshot filename file entries true room).0)
          ≡ find text_dec q entries)
unfolding snapshot
load-snapshot filename file entries room q d h =
    let fits : leb (length (render entries)) room ≡ true = ground arith in
    let loaded : find text_dec q (load (some (render entries))) ≡ find text_dec q entries =
      unfold load in
      (ap (find text_dec q) (load_lines-render entries [])
        ∙ find-insert_all q entries [] d
        ∙ unfold find in ground arith) in
    (rw fits refl, rw fits loaded)
