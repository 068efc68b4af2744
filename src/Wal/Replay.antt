-- ===== src/Wal/Replay.antt =====
-- What `WAL::replay` reads back of what `WAL::append` has written.
use dist_cache.Prelude.{
  ◌≡◌, ◌≢◌, refl, ap, sym, ◌∙◌, Bool, true, false, ◌||◌, List, [], ◌∷◌, ◌++◌, append-nil,
  append_assoc, some, arith, All, All-append, All-map, ok, throws,
}
use dist_cache.Text.{Text, codes}
use dist_cache.Text.Lines.{
  getlines, Lacks, Complete, getlines_line, getlines-append, Complete-append, Complete-line,
}
use dist_cache.Text.Words.{IsWord, is_space, skip_space, Stops, skip_space_word, read_word_word}
use dist_cache.Wal.{
  Wal, Record, bytes_of, trim_one, log_line, append, parse_line, replay_lines, replay,
}

-- An operation that the text format can carry: two words, and a value of one line.
pub record IsLoggable (op key value : Text) : Type 0 where
  pub op_word : IsWord op
  pub key_word : IsWord key
  pub one_line : Lacks b'\n' value

-- The line without its end.
abbrev pub line_text : Text → Text → Text → Text
line_text op key [] = op ++ (b' ' ∷ key)
line_text op key (c ∷ value) = op ++ (b' ' ∷ (key ++ (b' ' ∷ c ∷ value)))

pub log_line-text :
    (op key value : Text) → log_line op key value ≡ line_text op key value ++ b'\n' ∷ []
unfolding log_line
log_line-text op key [] = simp append_assoc
log_line-text op key (c ∷ value) = simp append_assoc

pub word-Lacks : (t : Text) → All (λ c. is_space c ≡ false) t → Lacks b'\n' t
unfolding is_space
word-Lacks t h = All-map (λ c p. ground arith) t h

pub line_text-Lacks :
    (op key value : Text) → IsLoggable op key value → Lacks b'\n' (line_text op key value)
line_text-Lacks op key [] h =
    All-append _ op (b' ' ∷ key) (word-Lacks op h.op_word.1) (refl, word-Lacks key h.key_word.1)
line_text-Lacks op key (c ∷ value) h =
    All-append _ op _ (word-Lacks op h.op_word.1)
      (refl, All-append _ key _ (word-Lacks key h.key_word.1) (refl, h.one_line))

-- Two words, and what follows the second up to one space.
pub parse_line-words :
    (op key tail : Text)
    → IsWord op
    → IsWord key
    → Stops tail
    → parse_line (op ++ (b' ' ∷ (key ++ tail))) ≡ (op, key, trim_one tail)
unfolding parse_line
parse_line-words op key tail o k s =
    let stop : is_space b' ' ≡ true = unfold is_space in refl in
    let skip : skip_space (b' ' ∷ (key ++ tail)) ≡ key ++ tail =
      unfold skip_space in rw stop (skip_space_word key tail k) in
    rw
      (
        skip_space_word op (b' ' ∷ (key ++ tail)) o,
        read_word_word op (b' ' ∷ (key ++ tail)) o.1 stop,
        skip,
        read_word_word key tail k.1 s,
      )
      refl

parse_line-text :
    (op key value : Text)
    → IsLoggable op key value
    → parse_line (line_text op key value) ≡ (op, key, value)
parse_line-text op key [] h =
    ap (λ k. parse_line (op ++ (b' ' ∷ k))) (sym (append-nil key))
    ∙ parse_line-words op key [] h.op_word h.key_word tt
parse_line-text op key (c ∷ value) h =
    parse_line-words op key (b' ' ∷ c ∷ value) h.op_word h.key_word (unfold is_space in refl)

pub replay_lines-append :
    (xs ys : List Text) → replay_lines (xs ++ ys) ≡ replay_lines xs ++ replay_lines ys
unfolding replay_lines
replay_lines-append [] ys = refl
replay_lines-append ([] ∷ xs) ys = replay_lines-append xs ys
replay_lines-append ((c ∷ l) ∷ xs) ys = ap (◌∷◌ (parse_line (c ∷ l))) (replay_lines-append xs ys)

-- The records of a file's text.
abbrev pub records : Text → List Record
records t = replay_lines (getlines b'\n' t)

pub replay-records : (w : Wal) → replay w ≡ records (bytes_of w.file)
unfolding replay replay_lines getlines
replay-records w = ground arith

-- A line more in a file of whole lines is a record more.
pub records-line :
    (t line : Text)
    → Complete b'\n' t
    → Lacks b'\n' line
    → line ≢ []
    → records (t ++ (line ++ b'\n' ∷ [])) ≡ records t ++ parse_line line ∷ []
records-line t [] whole one some_text = absurd (some_text refl)
records-line t (c ∷ line) whole one some_text =
    ap replay_lines (
      getlines-append b'\n' t ((c ∷ line) ++ b'\n' ∷ []) whole
      ∙ ap (◌++◌ (getlines b'\n' t)) (getlines_line b'\n' (c ∷ line) [] one))
    ∙ replay_lines-append (getlines b'\n' t) _
    ∙ ap (◌++◌ (records t)) (unfold replay_lines getlines in refl)

pub append-ne_nil : (t s : Text) → t ≢ [] → t ++ s ≢ []
append-ne_nil [] s h = absurd (h refl)
append-ne_nil (c ∷ t) s h = λ e. cc

line_text-ne_nil : (op key value : Text) → IsWord op → line_text op key value ≢ []
line_text-ne_nil op key [] h = append-ne_nil op _ h.0
line_text-ne_nil op key (c ∷ value) h = append-ne_nil op _ h.0

pub records-log_line :
    (t op key value : Text)
    → Complete b'\n' t
    → IsLoggable op key value
    → records (t ++ log_line op key value) ≡ records t ++ (op, key, value) ∷ []
records-log_line t op key value whole h =
    ap (λ l. records (t ++ l)) (log_line-text op key value)
    ∙ records-line t (line_text op key value) whole (line_text-Lacks op key value h)
        (line_text-ne_nil op key value h.op_word)
    ∙ ap (λ r. records t ++ r ∷ []) (parse_line-text op key value h)

-- The log is between two calls: nothing waits in the buffer, and the file holds whole lines.
pub record IsTidy (w : Wal) : Type 0 where
  pub flushed : w.buffer ≡ []
  pub whole : Complete b'\n' (bytes_of w.file)

-- The file after one more line, written and flushed.
abbrev pub logged : Wal → Text → Wal
logged w line = record w { file = some (bytes_of w.file ++ line); buffer = []; is_open = true }

pub append-logged :
    (w : Wal) (op key value : Text) (can_open : Bool)
    → IsTidy w
    → (w.is_open || can_open) ≡ true
    → append w op key value can_open ≡ ok (logged w (log_line op key value))
unfolding append
append-logged w op key value can_open h ready = ground (arith, h.flushed)

pub log_line-Complete : (op key value : Text) → Complete b'\n' (log_line op key value)
log_line-Complete op key value =
    rw (log_line-text op key value) (Complete-line b'\n' (line_text op key value))

logged-IsTidy :
    (w : Wal) (op key value : Text) → IsTidy w → IsTidy (logged w (log_line op key value))
logged-IsTidy w op key value h = record {
  flushed = refl;
  whole =
      Complete-append b'\n' (bytes_of w.file) (log_line op key value) h.whole
        (log_line-Complete op key value);
}

-- Where the log is open or can be opened, `append` succeeds, leaves the log open with
-- nothing in the buffer and whole lines in the file, and what
-- `replay` reads afterwards is what it read before and the new record behind it. The operation and
-- the key are words, and the value has no line end.
pub replay-append :
    (w : Wal) (op key value : Text) (can_open : Bool)
    → IsTidy w
    → (w.is_open || can_open) ≡ true
    → IsLoggable op key value
    → (w' : Wal) × (append w op key value can_open ≡ ok w')
      × IsTidy w'
      × (w'.is_open ≡ true)
      × (replay w' ≡ replay w ++ (op, key, value) ∷ [])
replay-append w op key value can_open tidy ready h = (
  logged w (log_line op key value),
  append-logged w op key value can_open tidy ready,
  logged-IsTidy w op key value tidy,
  refl,
  replay-records _
      ∙ records-log_line (bytes_of w.file) op key value tidy.whole h
      ∙ rw (replay-records w) refl,
)

-- Where the log is shut and cannot be opened, `append` throws.
pub append_throws :
    (w : Wal) (op key value : Text)
    → w.is_open ≡ false
    → append w op key value false ≡ throws (codes "Failed to open WAL file: " ++ w.filename)
unfolding append
append_throws w op key value shut = ground (arith, shut)
