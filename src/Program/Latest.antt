-- ===== src/Program/Latest.antt =====
-- What was last written under a key, and that the cache holds no other value.
use dist_cache.Prelude.{
  ℕ, zero, suc, ◌≡◌, ◌∙◌, refl, List, [], ◌∷◌, ◌++◌, Option, some, none, ite, All, take, if_pos,
  if_neg, append-nil, append_assoc,
}
use dist_cache.Text.{Text, text_dec, codes}
use dist_cache.Dict.{erase}
use dist_cache.Persistence.{Map}
use dist_cache.Wal.{Record}
use dist_cache.Startup.Recovery.{apply_record, apply_all}

-- The value that a record leaves under a key which had `was`.
unfoldable pub after_record : Text → Option Text → Record → Option Text
after_record key was (op, k, value) =
    ite (text_dec k key)
      (ite (text_dec op (codes "SET")) (some value) (ite (text_dec op (codes "DEL")) none was)) was

unfoldable pub latest : Text → Option Text → List Record → Option Text
latest key was [] = was
latest key was (r ∷ rs) = latest key (after_record key was r) rs

pub latest-append :
    (key : Text) (was : Option Text) (rs : List Record) (r : Record)
    → latest key was (rs ++ r ∷ []) ≡ after_record key (latest key was rs) r
unfolding latest
latest-append key was [] r = refl
latest-append key was (x ∷ rs) r = latest-append key (after_record key was x) rs r

-- Each value is the one last written under its key.
abbrev pub AreLatest : List Record → Map → Type 0
AreLatest h = All (λ e. latest e.0 none h ≡ some e.1)

AreLatest-take : (h : List Record) (n : ℕ) (m : Map) → AreLatest h m → AreLatest h (take n m)
AreLatest-take h zero m v = tt
AreLatest-take h (suc n) [] v = tt
AreLatest-take h (suc n) (e ∷ m) v = (v.0, AreLatest-take h n m v.1)

-- A record leaves the values of the other keys.
AreLatest-erase :
    (h : List Record) (r : Record) (m : Map)
    → AreLatest h m
    → AreLatest (h ++ r ∷ []) (erase text_dec r.1 m)
unfolding erase after_record
AreLatest-erase h r [] v = tt
AreLatest-erase h (op, k, value) ((j, w) ∷ m) v = elim (text_dec j k) [
  | yes same ↦ rw (if_pos (text_dec j k) same) (AreLatest-erase h (op, k, value) m v.1)
  | no other ↦
      let apart : ¬ (k ≡ j) = λ e. other (cc) in
      rw (if_neg (text_dec j k) other) (
        latest-append j none h (op, k, value) ∙ if_neg (text_dec k j) apart _ _ ∙ v.0,
        AreLatest-erase h (op, k, value) m v.1,
      )
]

-- A record of another operation leaves all values.
AreLatest-other :
    (h : List Record) (r : Record) (m : Map)
    → ¬ (r.0 ≡ codes "SET")
    → ¬ (r.0 ≡ codes "DEL")
    → AreLatest h m
    → AreLatest (h ++ r ∷ []) m
unfolding after_record
AreLatest-other h r [] not_set not_del v = tt
AreLatest-other h (op, k, value) ((j, w) ∷ m) not_set not_del v = (
  latest-append j none h (op, k, value)
      ∙ rw (if_neg (text_dec op (codes "SET")) not_set, if_neg (text_dec op (codes "DEL")) not_del)
          (keep (text_dec k j) (latest j none h))
      ∙ v.0,
  AreLatest-other h (op, k, value) m not_set not_del v.1,
)
  where
    keep : {P : Type 0} (d : Dec P) (o : Option Text) → ite d o o ≡ o
    keep (yes e) o = refl
    keep (no e) o = refl

set_here :
    (h : List Record) (op k value : Text)
    → op ≡ codes "SET"
    → latest k none (h ++ (op, k, value) ∷ []) ≡ some value
unfolding after_record
set_here h op k value is_set =
    latest-append k none h (op, k, value)
    ∙ if_pos (text_dec k k) refl _ _
    ∙ if_pos (text_dec op (codes "SET")) is_set _ _

pub apply_record-AreLatest :
    (capacity : ℕ) (h : List Record) (m : Map) (r : Record)
    → AreLatest h m
    → AreLatest (h ++ r ∷ []) (apply_record capacity m r)
unfolding apply_record
apply_record-AreLatest capacity h m (op, k, value) v = elim (text_dec op (codes "SET")) [
  | yes is_set ↦ rw (if_pos (text_dec op (codes "SET")) is_set) (
      AreLatest-take (h ++ (op, k, value) ∷ []) capacity ((k, value) ∷ erase text_dec k m)
        (set_here h op k value is_set, AreLatest-erase h (op, k, value) m v))
  | no not_set ↦ elim (text_dec op (codes "DEL")) [
    | yes is_del ↦
        rw (if_neg (text_dec op (codes "SET")) not_set, if_pos (text_dec op (codes "DEL")) is_del)
          (AreLatest-erase h (op, k, value) m v)
    | no not_del ↦
        rw (if_neg (text_dec op (codes "SET")) not_set, if_neg (text_dec op (codes "DEL")) not_del)
          (AreLatest-other h (op, k, value) m not_set not_del v)
  ]
]

pub apply_all-AreLatest :
    (capacity : ℕ) (h : List Record) (m : Map) (rs : List Record)
    → AreLatest h m
    → AreLatest (h ++ rs) (apply_all capacity m rs)
unfolding apply_all
apply_all-AreLatest capacity h m [] v = rw (append-nil h) v
apply_all-AreLatest capacity h m (r ∷ rs) v = rw (← append_assoc h (r ∷ []) rs) (
    apply_all-AreLatest capacity (h ++ r ∷ []) (apply_record capacity m r) rs
      (apply_record-AreLatest capacity h m r v))
