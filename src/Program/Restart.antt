-- ===== src/Program/Restart.antt =====
-- The program from its start to a kill at any moment, and its next start.
use dist_cache.Prelude.{ℕ, ◌≡◌, sym, ap, ◌∙◌, [], Option, some, none, true, Result, ok}
use dist_cache.Text.{Text}
use dist_cache.Text.Lines.{Complete}
use dist_cache.Cache.{Time}
use dist_cache.Wal.{Record, bytes_of, replay}
use dist_cache.Server.Writes.{tally, tally_pending}
use dist_cache.Server.Calls.{pends}
use dist_cache.Prelude.{◌+◌, Bool, map}
use dist_cache.Wal.Replay.{replay-records}
use dist_cache.Discovery.{Discovery}
use dist_cache.Server.Client.{Session}
use dist_cache.Startup.{main_capacity}
use dist_cache.Startup.Recovery.{values, apply_all}
use dist_cache.Program.{Program, boot, launch, Reach}
use dist_cache.Program.Boot.{boot-IsBooted, opened_log}
use dist_cache.Program.Invariant.{IsRunning, launch-IsRunning, Reach-IsRunning}

module _ {D : Type 0} (add : D → D → D) (zero_latency : D)
    (create_directories : Text → Result (Unit {0})) where
  abbrev pub start_up : (ℕ → Time) → Option Text → Option (Result (Session D))
  start_up clock file = boot zero_latency create_directories clock file true none

  -- In every state that the threads come to, however their calls mix and whenever they run, the
  -- components serve the clients: the cache is valid, the log open and of whole lines, its records and
  -- the writes that wait for it are together those of the log at the start and those that the cache
  -- has taken since, each as often, and each entry of the cache has the value last written under its
  -- key; the breaker is closed, the number of connections is the number of clients that are in, and
  -- each request was served and measured: none has failed and none was refused. At the start there was
  -- no snapshot, and the log was one of whole lines and could be opened; a report is one step.
  pub Reach-served :
      (clock : ℕ → Time) (file : Option Text) (s : Session D) (d : Discovery) (p : Program D)
      → Complete b'\n' (bytes_of file)
      → start_up clock file ≡ some (ok s)
      → Reach add (launch s d) p
      → IsRunning p
  Reach-served clock file s d p whole started reached =
      let (s₁, started₁, b) = boot-IsBooted zero_latency create_directories clock file whole in
      let same : s₁ ≡ s = cc in
      Reach-IsRunning add reached (launch-IsRunning file s d (rw (← same) b))

  pub replay-opened_log :
      (s : Session D) → replay (opened_log s.server.wal.file) ≡ replay s.server.wal
  replay-opened_log s =
      replay-records (opened_log s.server.wal.file) ∙ sym (replay-records s.server.wal)

  -- Killed between any two calls of its threads, whenever that is, the program starts again from the
  -- log's file alone, which is again one of whole lines. The cache then holds what the log's records
  -- stand for, and these are all the records that the log had at the first start and all writes since,
  -- each as often, but for those that a client has made to the cache and not yet to the log. At the
  -- first start there was no snapshot, and the log was one of whole lines; it could and can be opened.
  pub kill_and_restart :
      (clock : ℕ → Time) (file : Option Text) (s : Session D) (d : Discovery) (p : Program D)
      (clock' : ℕ → Time)
      → Complete b'\n' (bytes_of file)
      → start_up clock file ≡ some (ok s)
      → Reach add (launch s d) p
      → (s' : Session D) × (start_up clock' p.service.session.server.wal.file ≡ some (ok s'))
        × (values s'.server.cache
            ≡ apply_all main_capacity [] (replay p.service.session.server.wal))
        × ((t : Record → Bool)
            → tally t (replay p.service.session.server.wal)
                + tally_pending t (map pends p.service.stages)
              ≡ tally t p.service.history)
        × Complete b'\n' (bytes_of p.service.session.server.wal.file)
  kill_and_restart clock file s d p clock' whole started reached =
      let v = (Reach-served clock file s d p whole started reached).serving.tracked in
      let (s', started', b) =
        boot-IsBooted zero_latency create_directories clock' p.service.session.server.wal.file
          v.tidy.whole in
      (
        s',
        started',
        b.seen ∙ ap (apply_all main_capacity []) (replay-opened_log p.service.session),
        v.logged,
        v.tidy.whole,
      )
