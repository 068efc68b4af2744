-- ===== src/Wal/Sessions.antt =====
-- Whole histories of a log, and texts that its format cannot carry.
use dist_cache.Prelude.{
  ℕ, ◌≡◌, refl, ap, sym, ◌∙◌, Bool, true, false, ◌||◌, List, [], ◌∷◌, ◌++◌, append-nil,
  append_assoc, some, arith, All, All-append, Result, ok, and_then,
}
use dist_cache.Text.{Text}
use dist_cache.Text.Lines.{getlines, Lacks, Complete, Complete-append}
use dist_cache.Text.Words.{IsWord, is_space}
use dist_cache.Wal.{Wal, Record, bytes_of, log_line, append, replay, truncate, open_log, sync}
use dist_cache.Wal.Replay.{
  IsLoggable, IsTidy, replay-append, records, replay-records, records-line, parse_line-words,
  append-ne_nil, logged, append-logged, word-Lacks, records-log_line, log_line-Complete,
}

-- The calls of `append` for a list of records, in order.
unfoldable pub append_all : Wal → List Record → Bool → Result Wal
append_all w [] can_open = ok w
append_all w ((op, key, value) ∷ rs) can_open =
    and_then (append w op key value can_open) λ w'. append_all w' rs can_open

abbrev pub AreLoggable : List Record → Type 0
AreLoggable = All (λ r. IsLoggable r.0 r.1 r.2)

-- A list of appended records is replayed in order, behind what the log held before.
pub replay-append_all :
    (w : Wal) (rs : List Record)
    → IsTidy w
    → AreLoggable rs
    → (w' : Wal) × (append_all w rs true ≡ ok w') × IsTidy w' × (replay w' ≡ replay w ++ rs)
unfolding append_all
replay-append_all w [] tidy h = (w, refl, tidy, sym (append-nil (replay w)))
replay-append_all w ((op, key, value) ∷ rs) tidy h =
    let (w₁, e₁, tidy₁, _, r₁) = replay-append w op key value true tidy (ground arith) h.0 in
    let (w₂, e₂, tidy₂, r₂) = replay-append_all w₁ rs tidy₁ h.1 in
    (
      w₂,
      rw e₁ e₂,
      tidy₂,
      r₂ ∙ ap (λ l. l ++ rs) r₁ ∙ append_assoc (replay w) ((op, key, value) ∷ []) rs,
    )

sync-bytes :
    (w : Wal) → IsTidy w → (bytes_of (sync w).file ≡ bytes_of w.file) × ((sync w).buffer ≡ [])
unfolding sync
sync-bytes w h = ground (arith, h.flushed, append-nil (bytes_of w.file))

-- `truncate` empties the log where the file can be opened, and otherwise shuts it and keeps what it
-- holds.
pub replay-truncate :
    (w : Wal)
    → IsTidy w
    → IsTidy (truncate w true)
      × (replay (truncate w true) ≡ [])
      × (replay (truncate w false) ≡ replay w)
      × ((truncate w false).is_open ≡ false)
unfolding truncate
replay-truncate w h =
    let (same, clear) = sync-bytes w h in
    (
      record { flushed = clear; whole = tt },
      unfold replay getlines in refl,
      replay-records (truncate w false) ∙ ap records same ∙ sym (replay-records w),
      refl,
    )

-- A program that starts anew and opens the file replays exactly what the earlier one has appended
-- since it cut the log. The log was between two calls when it was cut, and can be opened; the
-- operations and keys are words, and the values have no line end.
pub replay_restart :
    (w : Wal) (rs : List Record)
    → IsTidy w
    → AreLoggable rs
    → (w' : Wal) × (append_all (truncate w true) rs true ≡ ok w')
      × (w'' : Wal) × (open_log w.filename w'.file true ≡ ok w'')
      × (replay w'' ≡ rs)
unfolding open_log
replay_restart w rs tidy h =
    let (clear, empty, _, _) = replay-truncate w tidy in
    let (w', ended, _, read) = replay-append_all (truncate w true) rs clear h in
    let w'' : Wal = record {
      filename = w.filename;
      file = some (bytes_of w'.file);
      buffer = [];
      is_open = true;
    } in
    (
      w',
      ended,
      w'',
      refl,
      replay-records w'' ∙ sym (replay-records w') ∙ read ∙ ap (λ l. l ++ rs) empty,
    )

-- `append` does not escape the key. A key of two words is replayed as its first word, and the rest
-- of it goes to the front of the value. The log is open or can be opened, the operation and the
-- first part of the key are words, and no part has a line end.
pub replay-append_split_key :
    (w : Wal) (op k₁ k₂ value : Text) (c : ℕ) (can_open : Bool)
    → IsTidy w
    → (w.is_open || can_open) ≡ true
    → IsWord op
    → IsWord k₁
    → Lacks b'\n' k₂
    → Lacks b'\n' (c ∷ value)
    → (w' : Wal) × (append w op (k₁ ++ (b' ' ∷ k₂)) (c ∷ value) can_open ≡ ok w')
      × (replay w' ≡ replay w ++ (op, k₁, k₂ ++ (b' ' ∷ c ∷ value)) ∷ [])
replay-append_split_key w op k₁ k₂ value c can_open tidy ready o k one one' =
    let tail = b' ' ∷ (k₂ ++ (b' ' ∷ c ∷ value)) in
    let line = op ++ (b' ' ∷ (k₁ ++ tail)) in
    let same : log_line op (k₁ ++ (b' ' ∷ k₂)) (c ∷ value) ≡ line ++ b'\n' ∷ [] =
      unfold log_line in simp append_assoc in
    let lacks : Lacks b'\n' line =
      All-append _ op _ (word-Lacks op o.1) (
        refl,
        All-append _ k₁ tail (word-Lacks k₁ k.1) (refl, All-append _ k₂ _ one (refl, one')),
      ) in
    (
      logged w (log_line op (k₁ ++ (b' ' ∷ k₂)) (c ∷ value)),
      append-logged w op _ _ can_open tidy ready,
      replay-records _
          ∙ ap (λ l. records (bytes_of w.file ++ l)) same
          ∙ records-line (bytes_of w.file) line tidy.whole lacks (append-ne_nil op _ o.0)
          ∙ ap (λ r. records (bytes_of w.file) ++ r ∷ [])
              (parse_line-words op k₁ tail o k (unfold is_space in refl))
          ∙ rw (replay-records w) refl,
    )

-- `append` does not escape the value. A value with a line end in it, behind which stand an
-- operation and a key, is replayed as two records. The log is open or can be opened, the
-- operations and keys are words, and the two parts of the value have no further line end.
pub replay-append_two_lines :
    (w : Wal) (op key v op' key' : Text) (c : ℕ) (can_open : Bool)
    → IsTidy w
    → (w.is_open || can_open) ≡ true
    → IsLoggable op key (c ∷ v)
    → IsLoggable op' key' []
    → (w' : Wal) × (append w op key (c ∷ (v ++ (b'\n' ∷ (op' ++ (b' ' ∷ key'))))) can_open ≡ ok w')
      × (replay w' ≡ replay w ++ (op, key, c ∷ v) ∷ (op', key', []) ∷ [])
replay-append_two_lines w op key v op' key' c can_open tidy ready h h' =
    let t = bytes_of w.file in
    let first = log_line op key (c ∷ v) in
    let whole : Complete b'\n' (t ++ first) =
      Complete-append b'\n' t first tidy.whole (log_line-Complete op key (c ∷ v)) in
    let value = c ∷ (v ++ (b'\n' ∷ (op' ++ (b' ' ∷ key')))) in
    let same : t ++ log_line op key value ≡ (t ++ first) ++ log_line op' key' [] =
      unfold log_line in simp append_assoc in
    (
      logged w (log_line op key value),
      append-logged w op key value can_open tidy ready,
      replay-records _
          ∙ ap records same
          ∙ records-log_line (t ++ first) op' key' [] whole h'
          ∙ ap (λ l. l ++ (op', key', []) ∷ []) (records-log_line t op key (c ∷ v) tidy.whole h)
          ∙ rw (append_assoc, replay-records w) refl,
    )
