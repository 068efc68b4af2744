-- ===== src/Wal/Torn.antt =====
-- A crash in the middle of an append: a part of the record's line has reached the file.
use dist_cache.Prelude.{
  ℕ, zero, suc, ◌≡◌, ◌≤◌, refl, ap, ◌∙◌, true, false, List, [], ◌∷◌, ◌++◌, append_assoc, some,
  arith, All-append, ok, length, take, ◌⊎◌, inl, inr,
}
use dist_cache.Text.{Text}
use dist_cache.Text.Lines.{getlines, Lacks, getlines_line, getlines_last, getlines-append}
use dist_cache.Wal.{Wal, Record, bytes_of, log_line, append, replay, replay_lines}
use dist_cache.Wal.Replay.{
  IsLoggable, IsTidy, records, replay-records, replay_lines-append, line_text, line_text-Lacks,
  log_line-text, records-log_line, logged,
}

-- The log that the next start finds: the first `n` bytes of the line are in the file.
abbrev pub cut_short : Wal → Text → ℕ → Wal
cut_short w line n = record w {
  file = some (bytes_of w.file ++ take n line);
  buffer = [];
  is_open = false;
}

-- A part of a line has no line end, or is the whole line.
take_line :
    (d n : ℕ) (l : Text)
    → Lacks d l
    → Lacks d (take n (l ++ d ∷ [])) ⊎ (take n (l ++ d ∷ []) ≡ l ++ d ∷ [])
take_line d zero l h = inl tt
take_line d (suc n) [] h = inr (take_none n)
  where
    take_none : (n : ℕ) → d ∷ take n [] ≡ d ∷ []
    take_none zero = refl
    take_none (suc n) = refl
take_line d (suc n) (c ∷ l) h = elim (take_line d n l h.1) [
  | inl part ↦ inl (h.0, part)
  | inr whole ↦ inr (ap (◌∷◌ c) whole)
]

getlines_part : (d : ℕ) (l : Text) → Lacks d l → length (getlines d l) ≤ 1
getlines_part d [] h = unfold getlines in omega arith
getlines_part d (c ∷ l) h = rw (getlines_last d c l h) (omega arith)

getlines_cut : (d n : ℕ) (l : Text) → Lacks d l → length (getlines d (take n (l ++ d ∷ []))) ≤ 1
getlines_cut d n l h = elim (take_line d n l h) [
  | inl part ↦ getlines_part d (take n (l ++ d ∷ [])) part
  | inr whole ↦ rw (whole, getlines_line d l [] h) (unfold getlines in omega arith)
]

length-replay_lines-le : (ls : List Text) → length (replay_lines ls) ≤ length ls
unfolding replay_lines
length-replay_lines-le [] = omega arith
length-replay_lines-le ([] ∷ ls) = omega (arith, length-replay_lines-le ls)
length-replay_lines-le ((c ∷ l) ∷ ls) = omega (arith, length-replay_lines-le ls)

-- Wherever a crash cuts the append of a record short, the next start replays every record that the
-- log held before, unchanged and in order, and behind them one record at most. The log was between
-- two calls, the operation and the key are words, and the value has no line end.
pub replay-cut_short :
    (w : Wal) (op key value : Text) (n : ℕ)
    → IsTidy w
    → IsLoggable op key value
    → (last : List Record) × (replay (cut_short w (log_line op key value) n) ≡ replay w ++ last)
      × (length last ≤ 1)
replay-cut_short w op key value n tidy h =
    let t = bytes_of w.file in
    let part = take n (line_text op key value ++ b'\n' ∷ []) in
    let same : records (t ++ take n (log_line op key value)) ≡ records t ++ records part =
      ap (λ l. records (t ++ take n l)) (log_line-text op key value)
      ∙ ap replay_lines (getlines-append b'\n' t part tidy.whole)
      ∙ replay_lines-append (getlines b'\n' t) (getlines b'\n' part) in
    (
      records part,
      replay-records (cut_short w (log_line op key value) n) ∙ same ∙ rw (replay-records w) refl,
      omega (
        arith,
        length-replay_lines-le (getlines b'\n' part),
        getlines_cut b'\n' n (line_text op key value) (line_text-Lacks op key value h),
      ),
    )

append_anyway :
    (w : Wal) (op key value : Text)
    → w.buffer ≡ []
    → append w op key value true ≡ ok (logged w (log_line op key value))
unfolding append
append_anyway w op key value flushed = ground (arith, flushed)

-- Where a crash has cut off only the line end of a record with a value, the next record that is
-- appended is lost: it is replayed as the end of that value. The log was between two calls, the
-- operations and keys are words, and the values have no line end.
pub append_after_cut :
    (w : Wal) (op key value op' key' value' : Text) (c : ℕ)
    → IsTidy w
    → IsLoggable op key (c ∷ value)
    → IsLoggable op' key' value'
    → let torn =
        cut_short w (line_text op key (c ∷ value)) (length (line_text op key (c ∷ value))) in
      (w' : Wal) × (append torn op' key' value' true ≡ ok w')
      × (replay w' ≡ replay w ++ (op, key, (c ∷ value) ++ line_text op' key' value') ∷ [])
append_after_cut w op key value op' key' value' c tidy h h' =
    let t = bytes_of w.file in
    let line = line_text op key (c ∷ value) in
    let torn = cut_short w line (length line) in
    let both = (c ∷ value) ++ line_text op' key' value' in
    let loggable : IsLoggable op key both = record {
      op_word = h.op_word;
      key_word = h.key_word;
      one_line = All-append _ (c ∷ value) _ h.one_line (line_text-Lacks op' key' value' h');
    } in
    let glued : (t ++ line) ++ log_line op' key' value' ≡ t ++ log_line op key both =
      rw (log_line-text op' key' value', log_line-text op key both) (simp append_assoc) in
    (
      logged torn (log_line op' key' value'),
      append_anyway torn op' key' value' refl,
      replay-records _
          ∙ ap (λ l. records ((t ++ l) ++ log_line op' key' value')) (take_all line)
          ∙ ap records glued
          ∙ records-log_line t op key both tidy.whole loggable
          ∙ rw (replay-records w) refl,
    )
  where
    take_all : (l : Text) → take (length l) l ≡ l
    take_all [] = refl
    take_all (c ∷ l) = ap (◌∷◌ c) (take_all l)
