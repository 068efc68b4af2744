-- ===== src/Lib.antt =====
-- DistCache: a cache with a time to live and a bounded size, a write-ahead log, snapshots, a hash ring,
-- a circuit breaker, a parser of requests, node discovery and metrics. main.cpp makes one of each,
-- loads the snapshot and replays the log into the cache, and starts a server whose clients ask the
-- breaker, change the cache and then the log, and report to the breaker and the metrics.
--
-- Parts, with the files of this library and the code that they follow:
--   Cache         src/storage/LRUCache.h, LRUCache.cpp: the record `Cache` has the three containers of
--                 the class. `cache_` is `Dict`, an association list in the order of iteration;
--                 `lru_` is a list of nodes with their addresses, and the iterators in `lru_map_` are
--                 addresses (Cache/Nodes). `none` is undefined behaviour. Cache/Spec is the ideal
--                 cache that the class promises.
--   Wal           src/storage/WAL.h, WAL.cpp: the file's bytes, the stream's buffer, and whether the
--                 stream is open. Wal/Torn is about a crash in the middle of an append.
--   Persistence   src/storage/MMapPersistence.h, MMapPersistence.cpp: escapes, snapshot and load.
--   Ring          src/cluster/HashRing.h, HashRing.cpp, over the std::map of OrdMap.
--   Discovery     src/cluster/NodeDiscovery.h, NodeDiscovery.cpp, over the same map.
--   Breaker       src/patterns/CircuitBreaker.h, CircuitBreaker.cpp; Breaker/Races has the accesses of threads.
--   Resp          src/network/RESPParser.h, RESPParser.cpp. Resp/Reader reads replies as the protocol
--                 describes them, and is what the serializers are held against.
--   Metrics       src/monitoring/MetricsCollector.h; Metrics/Races has the accesses of threads.
--   Dashboard     src/monitoring/HttpDashboard.cpp: the text of the report; its loop is in Program.
--   Server        src/network/TCPServer.cpp: `process_command`; Server/Client: one client's session;
--                 Server/Races and Server/Writes: the cache's and the log's calls of two and of any
--                 number of clients as steps; Server/Sessions and Server/Outage: a client's
--                 ten requests with a log that works and with one that does not; Server/Calls: the
--                 clients with each call of the breaker, the cache, the log and the metrics as a step:
--                 Server/Calls/Outage has what holds whatever the log and the breaker do, Invariant and
--                 Progress what holds while the log is open, Whole compares with Server/Client.
--   Startup       main.cpp: the fill of the cache from the snapshot and from the log.
--   Program       main.cpp as a whole: what it makes, and its threads (the clients of `TCPServer::start`,
--                 discovery, dashboard, cleanup, `main` itself and the signal handler) as a step relation,
--                 with the calls of Server/Calls as the clients' steps. Program/Boot is its start,
--                 Program/Latest and Invariant what its steps keep, Program/Restart a kill and the next
--                 start, Program/Expired the same behind a cleanup, Program/Shutdown and Progress its end.
--   Bench         benchmark/benchmark.cpp: the loops of the five benchmarks over the components.
--   Prelude, Text, Dict, OrdMap   the parts of the language and its library that the code uses: texts
--                 are lists of bytes; std::getline, formatted extraction and std::to_string are in Text.
--
-- Each call that reads the clock takes the time as an argument, each call that opens a file takes
-- whether it can be opened, and random draws are arguments too. Times are nanoseconds and do not
-- overflow, which Cache/Bounds justifies for the times of expiry; counters of type size_t and int wrap.
-- `double` is a parameter with its addition. The eviction loop of `set` runs on fuel, one more than
-- the number of entries, which is shown to be enough. A write to an open log reaches the disk at the
-- flush.
--
-- Not modelled: console output beside the report, sleeping, the durations and tables of the benchmarks,
-- and the interleaving of threads inside one call, but for `record_latency` and the circuit breaker.
-- In Server/Calls and Program each call of a client is one step, and so is a cleanup, which holds the
-- lock of the cache; a report is one too, though it reads the metrics one by one.
-- `start_discovery` and `stop_discovery` only print. The unit tests are not modelled.
-- The methods get_all_keys, clear, set_if_not_exists and reset_stats of LRUCache.h have no definition.
pub mod Prelude
pub mod Text
pub mod Dict
pub mod Cache
pub mod Wal
pub mod Persistence
pub mod OrdMap
pub mod Ring
pub mod Breaker
pub mod Server
pub mod Startup
pub mod Program
pub mod Bench
pub mod Tests
pub mod Resp
pub mod Discovery
pub mod Metrics
pub mod Dashboard
