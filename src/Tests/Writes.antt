-- ===== src/Tests/Writes.antt =====
-- Two clients that set one key at once, with their records in the log in the other order.
use dist_cache.Prelude.{◌≡◌, refl, true, [], ◌∷◌, Option, none, some, Result, ok, throws, inl}
use dist_cache.Text.{text_dec, codes}
use dist_cache.Text.Words.{is_space}
use dist_cache.Text.Lines.{getlines}
use dist_cache.Dict.{contains, find, insert}
use dist_cache.Cache.View.{view, entries_of}
use dist_cache.Cache.Spec.{contents}
use dist_cache.Cache.Run.{init-Refines}
use dist_cache.Cache
use dist_cache.Cache.{Cache}
use dist_cache.Cache.Nodes.{erase_node}
use dist_cache.Wal.{Wal, Record, append, replay}
use dist_cache.Startup.{redo}
use dist_cache.Startup.Recovery.{values, apply_all}
use dist_cache.Startup.Logged.{set-IsWord}
use dist_cache.Server.Writes.{IsWrite, Writers, apply, log, Reach, begin, later, IsTracked}

abbrev wal_at_start : Wal
wal_at_start = record { filename = codes "wal.log"; file = some []; buffer = []; is_open = true }

abbrev at_start : Writers
at_start = record {
  server = record { cache = Cache.init 3; wal = wal_at_start; ring = [] };
  pending = none ∷ none ∷ [];
  history = [];
}

abbrev one : Record
one = (codes "SET", codes "k", codes "1")

abbrev two : Record
two = (codes "SET", codes "k", codes "2")

one-IsWrite : IsWrite one
unfolding is_space
one-IsWrite = record {
  known = inl refl;
  loggable = record {
    op_word = set-IsWord;
    key_word = ((λ e. cc), (refl, tt));
    one_line = (refl, tt);
  };
}

two-IsWrite : IsWrite two
unfolding is_space
two-IsWrite = record {
  known = inl refl;
  loggable = record {
    op_word = set-IsWord;
    key_word = ((λ e. cc), (refl, tt));
    one_line = (refl, tt);
  };
}

abbrev or_empty : Option Cache → Cache
or_empty none = Cache.init 3
or_empty (some c) = c

abbrev or_start : Result Wal → Wal
or_start (ok w) = w
or_start (throws what) = wal_at_start

abbrev cache_one : Cache
cache_one = or_empty (redo 4 (Cache.init 3) one)

abbrev cache_two : Cache
cache_two = or_empty (redo 5 cache_one two)

cache_one_ran : redo 4 (Cache.init 3) one ≡ some cache_one
unfolding redo Cache.init text_dec Cache.set contains find Cache.evict_while insert
cache_one_ran = refl

cache_two_ran : redo 5 cache_one two ≡ some cache_two
unfolding redo Cache.init text_dec Cache.set contains find Cache.evict_while insert Cache.unlink
    erase_node
cache_two_ran = refl

abbrev wal_two : Wal
wal_two = or_start (append wal_at_start (codes "SET") (codes "k") (codes "2") true)

wal_two_ran : append wal_at_start (codes "SET") (codes "k") (codes "2") true ≡ ok wal_two
unfolding append
wal_two_ran = refl

abbrev both_written : Writers
both_written = record {
  server = record { cache = cache_two; wal = wal_two; ring = [] };
  pending = some one ∷ none ∷ [];
  history = one ∷ two ∷ [];
}

both_written-reached : Reach at_start both_written
both_written-reached =
    later
      (later (later begin (apply [] (none ∷ []) one 4 refl one-IsWrite cache_one_ran))
        (apply (some one ∷ []) [] two 5 refl two-IsWrite cache_two_ran))
      (log (some one ∷ []) [] two true refl wal_two_ran)

at_start-IsTracked : IsTracked 3 at_start
unfolding values contents view entries_of Cache.init replay getlines apply_all
at_start-IsTracked = record {
  valid = unfold Cache.init in (init-Refines 3).valid;
  size = refl;
  tidy = record { flushed = refl; whole = tt };
  opened = refl;
  waiting = (tt, (tt, tt));
  logged = λ p. refl;
}
