-- ===== src/Server/Writes.antt =====
-- Any number of clients of TCPServer.cpp that write at once: `process_command` calls the cache and
-- then the log, each under a lock of its own, so that the calls of several commands mix.
use dist_cache.Prelude.{
  ℕ, ◌+◌, ◌≡◌, ap, sym, ◌∙◌, Bool, true, List, [], ◌∷◌, ◌++◌, Option, none, some, arith, All,
  All-split, ok, if◌then◌else◌, ◌⊎◌,
}
use dist_cache.Text.{Text, codes}
use dist_cache.Cache.Invariant.{IsValid}
use dist_cache.Cache.Get.{get-contents, get-capacity}
use dist_cache.Cache
use dist_cache.Cache.{Cache, Time}
use dist_cache.Wal.{Wal, Record, append, replay}
use dist_cache.Wal.Replay.{IsTidy, IsLoggable, replay-append}
use dist_cache.Server.{Server}
use dist_cache.Startup.{redo}
use dist_cache.Startup.Recovery.{
  values, apply_record, apply_all, apply_all-append, redo-values, get-values,
}

-- A SET or a DEL that the log's format can carry.
pub record IsWrite (r : Record) : Type 0 where
  pub known : (r.0 ≡ codes "SET") ⊎ (r.0 ≡ codes "DEL")
  pub loggable : IsLoggable r.0 r.1 r.2

-- The server, what each client has written to the cache and not yet to the log, and the writes so
-- far in the order in which the cache took them.
pub record Writers : Type 0 where
  pub server : Server
  pub pending : List (Option Record)
  pub history : List Record

pub data Step (s : Writers) : Writers → Type 0 where
  -- `cache_.set` or `cache_.del`: `redo` calls it by the operation's name.
  apply :
      (before after : List (Option Record)) (r : Record) (now : Time) {cache : Cache}
      → s.pending ≡ before ++ none ∷ after
      → IsWrite r
      → redo now s.server.cache r ≡ some cache
      → Step s (record {
        server = record s.server { cache = cache };
        pending = before ++ some r ∷ after;
        history = s.history ++ r ∷ [];
      })
  -- `wal_.append`
  log :
      (before after : List (Option Record)) (r : Record) (can_open : Bool) {wal : Wal}
      → s.pending ≡ before ++ some r ∷ after
      → append s.server.wal r.0 r.1 r.2 can_open ≡ ok wal
      → Step s (record {
        server = record s.server { wal = wal };
        pending = before ++ none ∷ after;
        history = s.history;
      })
  -- `cache_.get`
  look :
      (key : Text) (now written : Time)
      → Step s (record s {
        server = record s.server { cache = (Cache.get s.server.cache key now written).0 };
      })

pub data Reach (start : Writers) : Writers → Type 0 where
  begin : Reach start start
  later : {s t : Writers} → Reach start s → Step s t → Reach start t

-- How many records pass a test.
abbrev pub tally : (Record → Bool) → List Record → ℕ
tally p [] = 0
tally p (r ∷ rs) = (if p r then 1 else 0) + tally p rs

abbrev pub tally_pending : (Record → Bool) → List (Option Record) → ℕ
tally_pending p [] = 0
tally_pending p (none ∷ rs) = tally_pending p rs
tally_pending p (some r ∷ rs) = (if p r then 1 else 0) + tally_pending p rs

tally-append :
    (p : Record → Bool) (rs qs : List Record) → tally p (rs ++ qs) ≡ tally p rs + tally p qs
tally-append p [] qs = omega arith
tally-append p (r ∷ rs) qs = omega (arith, tally-append p rs qs)

pub tally_pending-append :
    (p : Record → Bool) (rs qs : List (Option Record))
    → tally_pending p (rs ++ qs) ≡ tally_pending p rs + tally_pending p qs
tally_pending-append p [] qs = omega arith
tally_pending-append p (none ∷ rs) qs = tally_pending-append p rs qs
tally_pending-append p (some r ∷ rs) qs = omega (arith, tally_pending-append p rs qs)

-- The waiting writes can be logged.
abbrev pub CanLog : Option Record → Type 0
CanLog none = Unit
CanLog (some r) = IsWrite r

-- The cache holds what the writes so far stand for.
abbrev pub IsCurrent : ℕ → Writers → Type 0
IsCurrent capacity s = values s.server.cache ≡ apply_all capacity [] s.history

-- The cache is valid; the log is open and of whole lines, and its records and the waiting ones are together the writes so far, each as often.
pub record IsTracked (capacity : ℕ) (s : Writers) : Type 0 where
  pub valid : IsValid s.server.cache
  pub size : s.server.cache.capacity ≡ capacity
  pub tidy : IsTidy s.server.wal
  pub opened : s.server.wal.is_open ≡ true
  pub waiting : All CanLog s.pending
  pub logged :
      (p : Record → Bool)
      → tally p (replay s.server.wal) + tally_pending p s.pending ≡ tally p s.history

pub apply-IsTracked :
    (capacity : ℕ) (s : Writers) (before after : List (Option Record)) (r : Record) (now : Time)
    (cache : Cache)
    → IsTracked capacity s
    → s.pending ≡ before ++ none ∷ after
    → IsWrite r
    → redo now s.server.cache r ≡ some cache
    → IsTracked capacity (record {
      server = record s.server { cache = cache };
      pending = before ++ some r ∷ after;
      history = s.history ++ r ∷ [];
    })
apply-IsTracked capacity s before after r now cache v at write e =
    let (c, ended, valid, size, _) = redo-values now s.server.cache r v.valid in
    let same : c ≡ cache = cc in
    let (_, put) = All-split CanLog before none after (rw at at v.waiting) in
    record {
      valid = rw (← same) valid;
      size = rw (← same) (size ∙ v.size);
      tidy = v.tidy;
      opened = v.opened;
      waiting = put (some r) write;
      logged = λ p. omega (
        arith,
        v.logged p,
        ap (tally_pending p) at,
        tally_pending-append p before (none ∷ after),
        tally_pending-append p before (some r ∷ after),
        tally-append p s.history (r ∷ []),
      );
    }

pub log-IsTracked :
    (capacity : ℕ) (s : Writers) (before after : List (Option Record)) (r : Record)
    (can_open : Bool) (wal : Wal)
    → IsTracked capacity s
    → s.pending ≡ before ++ some r ∷ after
    → append s.server.wal r.0 r.1 r.2 can_open ≡ ok wal
    → IsTracked capacity (record {
      server = record s.server { wal = wal };
      pending = before ++ none ∷ after;
      history = s.history;
    })
log-IsTracked capacity s before after r can_open wal v at e =
    let (write, put) = All-split CanLog before (some r) after (rw at at v.waiting) in
    let (w, appended, tidy, opened, read) =
      replay-append s.server.wal r.0 r.1 r.2 can_open v.tidy (ground (arith, v.opened))
        write.loggable in
    let same : w ≡ wal = cc in
    record {
      valid = v.valid;
      size = v.size;
      tidy = rw (← same) tidy;
      opened = rw (← same) opened;
      waiting = put none tt;
      logged = λ p.
          rw (← same, read)
            (omega (
              arith,
              v.logged p,
              ap (tally_pending p) at,
              tally_pending-append p before (none ∷ after),
              tally_pending-append p before (some r ∷ after),
              tally-append p (replay s.server.wal) (r ∷ []),
            ));
    }

-- A write to the cache.
pub apply-IsCurrent :
    (capacity : ℕ) (cache cache' : Cache) (history : List Record) (r : Record) (now : Time)
    → IsValid cache
    → cache.capacity ≡ capacity
    → values cache ≡ apply_all capacity [] history
    → redo now cache r ≡ some cache'
    → values cache' ≡ apply_all capacity [] (history ++ r ∷ [])
apply-IsCurrent capacity cache cache' history r now valid size seen e =
    let (c, ended, _, _, became) = redo-values now cache r valid in
    let same : c ≡ cache' = cc in
    rw (← same) (
      became
      ∙ ap (λ n. apply_record n (values cache) r) size
      ∙ ap (λ m. apply_record capacity m r) seen
      ∙ sym (apply_all-append capacity [] history r))

pub Step-IsCurrent :
    (capacity : ℕ) {s t : Writers}
    → Step s t
    → IsTracked capacity s
    → IsCurrent capacity s
    → IsCurrent capacity t
Step-IsCurrent capacity {s} (apply before after r now {cache} at write e) v seen =
    apply-IsCurrent capacity s.server.cache cache s.history r now v.valid v.size seen e
Step-IsCurrent capacity (log before after r can_open at e) v seen = seen
Step-IsCurrent capacity {s} (look key now written) v seen =
    get-values s.server.cache key now written v.valid ∙ seen

pub Step-IsTracked :
    (capacity : ℕ) {s t : Writers} → Step s t → IsTracked capacity s → IsTracked capacity t
Step-IsTracked capacity {s} (apply before after r now {cache} at write e) v =
    apply-IsTracked capacity s before after r now cache v at write e
Step-IsTracked capacity {s} (log before after r can_open {wal} at e) v =
    log-IsTracked capacity s before after r can_open wal v at e
Step-IsTracked capacity {s} (look key now written) v = record {
  valid = (get-contents s.server.cache key now written v.valid).0;
  size = get-capacity s.server.cache key now written ∙ v.size;
  tidy = v.tidy;
  opened = v.opened;
  waiting = v.waiting;
  logged = v.logged;
}

-- Whatever calls the clients make and however they mix, these hold afterwards if they held before:
-- the cache is valid and holds what the writes so far stand for in the order in which the cache
-- took them, the log is open and of whole lines, and its records together with the writes that wait
-- for the log are the writes so far, each as often. The keys that are written are words, and the
-- values have no line end.
pub Reach-IsTracked :
    (capacity : ℕ) {s t : Writers}
    → IsTracked capacity s
    → IsCurrent capacity s
    → Reach s t
    → IsTracked capacity t × IsCurrent capacity t
Reach-IsTracked capacity v seen begin = (v, seen)
Reach-IsTracked capacity v seen (later before step) =
    let (v', seen') = Reach-IsTracked capacity v seen before in
    (Step-IsTracked capacity step v', Step-IsCurrent capacity step v' seen')
