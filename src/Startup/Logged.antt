-- ===== src/Startup/Logged.antt =====
-- Servers whose log stands for their cache, and the commands that keep it so.
use dist_cache.Prelude.{
  ◌≡◌, refl, ap, sym, ◌∙◌, true, false, [], ◌∷◌, ◌++◌, some, arith, if_pos, if_neg, ◌⊎◌, inl, inr,
}
use dist_cache.Text.{text_dec, codes}
use dist_cache.Text.Lines.{Lacks}
use dist_cache.Text.Words.{IsWord, is_space}
use dist_cache.Cache.Invariant.{IsValid}
use dist_cache.Cache.Get.{get-contents, get-capacity}
use dist_cache.Cache
use dist_cache.Cache.{Cache, Time}
use dist_cache.Wal.{Wal, Record, replay}
use dist_cache.Wal.Replay.{IsTidy, IsLoggable, replay-append}
use dist_cache.Ring.{get_node}
use dist_cache.Server.{Server, Command, Outcome, process_command, found_or_nil, default_ttl}
use dist_cache.Startup.Recovery.{
  values, set-values, del-values, get-values, apply_record, apply_all, apply_all-append,
}

-- The log stands for exactly what the cache holds.
pub record IsDurable (s : Server) : Type 0 where
  pub valid : IsValid s.cache
  pub tidy : IsTidy s.wal
  pub opened : s.wal.is_open ≡ true
  pub logged : values s.cache ≡ apply_all s.cache.capacity [] (replay s.wal)

-- The key is a word, and the value has no line end.
pub record IsClean (c : Command) : Type 0 where
  pub key_word : IsWord c.key
  pub one_line : Lacks b'\n' c.value

-- A command that the server has.
abbrev pub IsKnown : Command → Type 0
IsKnown c = (c.cmd ≡ codes "SET") ⊎ ((c.cmd ≡ codes "GET") ⊎ (c.cmd ≡ codes "DEL"))

-- The command ends, and leaves a durable server of the same capacity; a command that the server has
-- succeeds.
abbrev pub Keeps : Server → Command → Type 0
Keeps s c =
    (s' : Server) × (o : Outcome) × (process_command s c ≡ some (s', o))
    × IsDurable s'
    × (s'.cache.capacity ≡ s.cache.capacity)
    × (IsKnown c → o.success ≡ true)

pub set-IsWord : IsWord (codes "SET")
unfolding is_space
set-IsWord = (λ e. cc, (refl, (refl, (refl, tt))))

pub del-IsWord : IsWord (codes "DEL")
unfolding is_space
del-IsWord = (λ e. cc, (refl, (refl, (refl, tt))))

-- A change of the cache and the record that stands for it.
logged_change :
    (s : Server) (cache : Cache) (wal : Wal) (r : Record)
    → IsDurable s
    → IsValid cache
    → cache.capacity ≡ s.cache.capacity
    → values cache ≡ apply_record s.cache.capacity (values s.cache) r
    → IsTidy wal
    → wal.is_open ≡ true
    → replay wal ≡ replay s.wal ++ r ∷ []
    → IsDurable (record s { cache = cache; wal = wal })
logged_change s cache wal r d valid capacity seen tidy opened read = record {
  valid = valid;
  tidy = tidy;
  opened = opened;
  logged =
      seen
      ∙ ap (λ m. apply_record s.cache.capacity m r) d.logged
      ∙ sym (apply_all-append s.cache.capacity [] (replay s.wal) r)
      ∙ rw (capacity, read) refl;
}

process_set-Keeps :
    (s : Server) (c : Command) → IsDurable s → IsClean c → c.cmd ≡ codes "SET" → Keeps s c
unfolding process_command apply_record
process_set-Keeps s c d clean e =
    let (cache, set, valid, capacity, seen) =
      set-values s.cache c.key c.value default_ttl c.now d.valid in
    let loggable : IsLoggable (codes "SET") c.key c.value = record {
      op_word = set-IsWord;
      key_word = clean.key_word;
      one_line = clean.one_line;
    } in
    let (wal, appended, tidy, opened, read) =
      replay-append s.wal (codes "SET") c.key c.value c.can_open d.tidy (ground (arith, d.opened))
        loggable in
    (
      record s { cache = cache; wal = wal },
      record { success = true; response = codes "OK"; target_node = get_node s.ring c.key },
      rw (if_pos _ e, set, appended) refl,
      logged_change s cache wal (codes "SET", c.key, c.value) d valid capacity
          (seen ∙ sym (if_pos (text_dec (codes "SET") (codes "SET")) refl _ _)) tidy opened read,
      capacity,
      λ _. refl,
    )

process_del-Keeps :
    (s : Server) (c : Command) → IsDurable s → IsClean c → c.cmd ≡ codes "DEL" → Keeps s c
unfolding process_command apply_record
process_del-Keeps s c d clean e =
    let (cache, del, valid, capacity, seen) = del-values s.cache c.key d.valid in
    let loggable : IsLoggable (codes "DEL") c.key [] = record {
      op_word = del-IsWord;
      key_word = clean.key_word;
      one_line = tt;
    } in
    let (wal, appended, tidy, opened, read) =
      replay-append s.wal (codes "DEL") c.key [] c.can_open d.tidy (ground (arith, d.opened))
        loggable in
    let not_set : ¬ (c.cmd ≡ codes "SET") = λ p. ground arith in
    let not_get : ¬ (c.cmd ≡ codes "GET") = λ p. ground arith in
    let not_set' : ¬ (codes "DEL" ≡ codes "SET") = λ p. ground arith in
    (
      record s { cache = cache; wal = wal },
      record { success = true; response = codes "OK"; target_node = get_node s.ring c.key },
      rw (if_neg _ not_set, if_neg _ not_get, if_pos _ e, del, appended) refl,
      logged_change s cache wal (codes "DEL", c.key, []) d valid capacity
          (seen
            ∙ sym (
                if_neg (text_dec (codes "DEL") (codes "SET")) not_set' _ _
                ∙ if_pos (text_dec (codes "DEL") (codes "DEL")) refl _ _))
          tidy opened read,
      capacity,
      λ _. refl,
    )

-- A command that writes nothing to the log.
unlogged :
    (s : Server) (cache : Cache)
    → IsDurable s
    → IsValid cache
    → cache.capacity ≡ s.cache.capacity
    → values cache ≡ values s.cache
    → IsDurable (record s { cache = cache })
unlogged s cache d valid capacity same = record {
  valid = valid;
  tidy = d.tidy;
  opened = d.opened;
  logged = same ∙ d.logged ∙ rw capacity refl;
}

process_get-Keeps : (s : Server) (c : Command) → IsDurable s → c.cmd ≡ codes "GET" → Keeps s c
unfolding process_command
process_get-Keeps s c d e =
    let not_set : ¬ (c.cmd ≡ codes "SET") = λ p. ground arith in
    let (cache, found) = Cache.get s.cache c.key c.now c.later in
    (
      record s { cache = cache },
      record { success = true; response = found_or_nil found; target_node = get_node s.ring c.key },
      rw (if_neg _ not_set, if_pos _ e) refl,
      unlogged s cache d (get-contents s.cache c.key c.now c.later d.valid).0
          (get-capacity s.cache c.key c.now c.later)
          (get-values s.cache c.key c.now c.later d.valid),
      get-capacity s.cache c.key c.now c.later,
      λ _. refl,
    )

-- Whatever the command is, a durable server answers it and stays durable.
pub process_command-Keeps : (s : Server) (c : Command) → IsDurable s → IsClean c → Keeps s c
process_command-Keeps s c d clean = elim (text_dec c.cmd (codes "SET")) [
  | yes e ↦ process_set-Keeps s c d clean e
  | no e₁ ↦ elim (text_dec c.cmd (codes "GET")) [
    | yes e ↦ process_get-Keeps s c d e
    | no e₂ ↦ elim (text_dec c.cmd (codes "DEL")) [
      | yes e ↦ process_del-Keeps s c d clean e
      | no e₃ ↦ (
        s,
        record {
          success = false;
          response = codes "ERR unknown command";
          target_node = get_node s.ring c.key;
        },
        unfold process_command in rw (if_neg _ e₁, if_neg _ e₂, if_neg _ e₃) refl,
        d,
        refl,
        λ known. absurd (elim known [ inl e ↦ e₁ e | inr (inl e) ↦ e₂ e | inr (inr e) ↦ e₃ e ]),
      )
    ]
  ]
]
