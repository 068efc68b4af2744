-- ===== src/Startup/Durable.antt =====
-- The server's commands and the start of the program together: what was answered is not lost.
use dist_cache.Prelude.{ℕ, ◌≡◌, refl, ap, sym, ◌∙◌, List, [], ◌∷◌, some, All}
use dist_cache.Cache.Invariant.{IsValid}
use dist_cache.Cache
use dist_cache.Cache.{Cache, Time}
use dist_cache.Wal.{replay}
use dist_cache.Server.{Server, Command, Outcome, process_all}
use dist_cache.Startup.{redo_all}
use dist_cache.Startup.Recovery.{values, apply_all, redo_all-values, init-values}
use dist_cache.Startup.Logged.{IsDurable, IsClean, process_command-Keeps}

pub process_all-Keeps :
    (s : Server) (cs : List Command)
    → IsDurable s
    → All IsClean cs
    → (s' : Server) × (os : List Outcome) × (process_all s cs ≡ some (s', os))
      × IsDurable s'
      × (s'.cache.capacity ≡ s.cache.capacity)
unfolding process_all
process_all-Keeps s [] d clean = (s, [], refl, d, refl)
process_all-Keeps s (c ∷ cs) d clean =
    let (s₁, o, e₁, d₁, k₁, _) = process_command-Keeps s c d clean.0 in
    let (s₂, os, e₂, d₂, k₂) = process_all-Keeps s₁ cs d₁ clean.1 in
    (s₂, o ∷ os, rw (e₁, e₂) refl, d₂, k₂ ∙ k₁)

-- After any commands on a durable server, a program that starts with an empty cache of the same
-- capacity and replays the log ends up with a valid cache that holds the same keys and values, in
-- the same order of eviction. The keys of the commands are words, and the values have no line end.
pub recovery :
    (s : Server) (cs : List Command) (clock : ℕ → Time)
    → IsDurable s
    → All IsClean cs
    → (s' : Server) × (os : List Outcome) × (process_all s cs ≡ some (s', os))
      × (c : Cache) × (redo_all clock 0 (Cache.init s.cache.capacity) (replay s'.wal) ≡ some c)
      × IsValid c
      × (values c ≡ values s'.cache)
recovery s cs clock d clean =
    let (s', os, ran, d', k) = process_all-Keeps s cs d clean in
    let (valid, size, empty) = init-values s.cache.capacity in
    let (c, redone, valid', _, seen) =
      redo_all-values clock 0 (Cache.init s.cache.capacity) (replay s'.wal) valid in
    (
      s',
      os,
      ran,
      c,
      redone,
      valid',
      seen
          ∙ ap (λ m. apply_all (Cache.init s.cache.capacity).capacity m (replay s'.wal)) empty
          ∙ ap (λ n. apply_all n [] (replay s'.wal)) (size ∙ sym k)
          ∙ sym d'.logged,
    )
