-- ===== src/Server/Calls/Answers.antt =====
-- What `process_command` of TCPServer.cpp has called, by its command.
use dist_cache.Prelude.{
  ◌≡◌, refl, ap, Bool, true, false, [], some, arith, Option-cases, Result, ok, throws, inl, inr,
  if_pos, if_neg,
}
use dist_cache.Text.{Text, text_dec, codes}
use dist_cache.Cache
use dist_cache.Cache.{Cache, Time}
use dist_cache.Wal.{Wal, append}
use dist_cache.Ring.{get_node}
use dist_cache.Server.{Server, Command, Outcome, process_command, after_append, default_ttl}
use dist_cache.Startup.{redo}
use dist_cache.Server.Calls.{record_of}

-- What a server has become that has written its cache, once the log has been called.
pub data Answers (s : Server) (c : Command) (cache : Cache) : Server → Bool → Type 0 where
  kept :
      {wal : Wal}
      → append s.wal c.cmd c.key c.value c.can_open ≡ ok wal
      → Answers s c cache (record s { cache = cache; wal = wal }) true
  lost :
      {what : Text}
      → append s.wal c.cmd c.key c.value c.can_open ≡ throws what
      → Answers s c cache (record s { cache = cache }) false

after_append-Answers :
    (s s' : Server) (c : Command) (o : Outcome) (cache : Cache) (target : Text)
    (result : Result Wal)
    → append s.wal c.cmd c.key c.value c.can_open ≡ result
    → some (after_append (record s { cache = cache }) target result) ≡ some (s', o)
    → Answers s c cache s' o.success
unfolding after_append
after_append-Answers s s' c o cache target (ok wal) logged e =
    let server : record s { cache = cache; wal = wal } ≡ s' = cc in
    let success : true ≡ o.success = cc in rw (← server, ← success) (kept logged)
after_append-Answers s s' c o cache target (throws what) threw e =
    let server : record s { cache = cache } ≡ s' = cc in
    let success : false ≡ o.success = cc in rw (← server, ← success) (lost threw)

abbrev pub Written : Server → Command → Server → Bool → Type 0
Written s c s' success =
    (cache : Cache) × (redo c.now s.cache (record_of c) ≡ some cache) × Answers s c cache s' success

pub set-Written :
    (s s' : Server) (c : Command) (o : Outcome)
    → c.cmd ≡ codes "SET"
    → process_command s c ≡ some (s', o)
    → Written s c s' o.success
unfolding process_command redo
set-Written s s' c o is_set e =
    elim (Option-cases (Cache.set s.cache c.key c.value default_ttl c.now)) [
      | inl stuck ↦
          absurd (let e' = rw (if_pos (text_dec c.cmd (codes "SET")) is_set, stuck) at e in cc)
      | inr (cache, ran) ↦ (
        cache,
        rw (if_pos (text_dec c.cmd (codes "SET")) is_set) ran,
        after_append-Answers s s' c o cache (get_node s.ring c.key) _
            (ap (λ op. append s.wal op c.key c.value c.can_open) is_set)
            (rw (if_pos (text_dec c.cmd (codes "SET")) is_set, ran) at e),
      )
    ]

pub del-Written :
    (s s' : Server) (c : Command) (o : Outcome)
    → c.cmd ≡ codes "DEL"
    → c.value ≡ []
    → process_command s c ≡ some (s', o)
    → Written s c s' o.success
unfolding process_command redo
del-Written s s' c o is_del empty e =
    let not_set : ¬ (c.cmd ≡ codes "SET") = λ p. ground arith in
    let not_get : ¬ (c.cmd ≡ codes "GET") = λ p. ground arith in
    let e' =
      rw
        (
          if_neg (text_dec c.cmd (codes "SET")) not_set,
          if_neg (text_dec c.cmd (codes "GET")) not_get,
          if_pos (text_dec c.cmd (codes "DEL")) is_del,
        )
        at e in
    elim (Option-cases (Cache.del s.cache c.key)) [
      | inl stuck ↦ absurd (let e'' = rw stuck at e' in cc)
      | inr (cache, ran) ↦ (
        cache,
        rw
            (
              if_neg (text_dec c.cmd (codes "SET")) not_set,
              if_pos (text_dec c.cmd (codes "DEL")) is_del,
            )
            ran,
        after_append-Answers s s' c o cache (get_node s.ring c.key) _ (rw (is_del, empty) refl)
            (rw ran at e'),
      )
    ]

pub get_looks :
    (s s' : Server) (c : Command) (o : Outcome)
    → c.cmd ≡ codes "GET"
    → process_command s c ≡ some (s', o)
    → (record s { cache = (Cache.get s.cache c.key c.now c.later).0 } ≡ s') × (true ≡ o.success)
unfolding process_command
get_looks s s' c o is_get e =
    let not_set : ¬ (c.cmd ≡ codes "SET") = λ p. ground arith in
    let e' =
      rw
        (
          if_neg (text_dec c.cmd (codes "SET")) not_set,
          if_pos (text_dec c.cmd (codes "GET")) is_get,
        )
        at e in
    (cc, cc)
