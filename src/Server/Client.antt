-- ===== src/Server/Client.antt =====
-- `handle_client_simulation` of src/network/TCPServer.cpp, over the server, the breaker and the
-- metrics that it works with. The random draws, the readings of the clock and the measured latency
-- are arguments; sleeping and what is printed are left out.
use dist_cache.Prelude.{
  ℕ, zero, suc, ◌+◌, ◌-◌, ◌%◌, Bool, [], ◌++◌, Option, some, ◌==◌, if◌then◌else◌, ◌>>=◌,
}
use dist_cache.Text.{Text, codes}
use dist_cache.Text.Decimal.{to_string}
use dist_cache.Cache.{Time}
use dist_cache.Breaker.{Breaker, allow_request, record_success, record_failure, int_mod, increment}
use dist_cache.Metrics.{Metrics, increment_counter, record_latency}
use dist_cache.Server.{Server, Command, process_command}

pub record Session (D : Type 0) : Type 0 where
  pub server : Server
  pub breaker : Breaker
  pub metrics : Metrics D
  pub connection_count : ℕ

unfoldable pub get_connection_count : {D : Type 0} → Session D → ℕ
get_connection_count s = s.connection_count

-- `connection_count_++` and `connection_count_--`
abbrev pub connect : {D : Type 0} → Session D → Session D
connect s = record s { connection_count = increment s.connection_count }

abbrev pub disconnect : {D : Type 0} → Session D → Session D
disconnect s = record s { connection_count = (s.connection_count + (int_mod - 1)) % int_mod }

-- What one round of the loop draws and reads.
pub record Round (D : Type 0) : Type 0 where
  pub asked : Time
  pub key_number : ℕ
  pub choice : ℕ
  pub now : Time
  pub later : Time
  pub can_open : Bool
  pub latency : D
  pub failed_at : Time

abbrev pub command_name : ℕ → Text
command_name choice =
    if choice == 0
    then codes "SET"
    else if choice == 1
    then codes "GET"
    else if choice == 2
    then codes "DEL"
    else []

abbrev pub command_value : ℕ → ℕ → Text
command_value i choice = if choice == 0 then codes "value" ++ to_string i else []

unfoldable pub command : {D : Type 0} → ℕ → Round D → Command
command i r = record {
  cmd = command_name r.choice;
  key = codes "key" ++ to_string r.key_number;
  value = command_value i r.choice;
  now = r.now;
  later = r.later;
  can_open = r.can_open;
}

-- The requests that a client makes.
abbrev pub client_requests : ℕ
client_requests = 10

module _ {D : Type 0} (add : D → D → D) where
  -- What follows the command's answer.
  unfoldable pub settle : Round D → Session D → Server → Bool → Session D
  settle r s server success =
      let metrics = record_latency add r.latency s.metrics in
      if success
      then record s {
        server = server;
        breaker = record_success s.breaker;
        metrics = increment_counter (codes "requests_success") metrics;
      }
      else record s {
        server = server;
        breaker = record_failure s.breaker r.failed_at;
        metrics = increment_counter (codes "requests_failed") metrics;
      }

  unfoldable pub client_round : ℕ → Round D → Session D → Option (Session D)
  unfolding command settle
  client_round i r s =
      let (breaker, allowed) = allow_request s.breaker r.asked in
      if allowed
      then (do
        (server, outcome) ← process_command s.server (command i r)
        some (settle r (record s { breaker = breaker }) server outcome.success))
      else some (record s {
        breaker = breaker;
        metrics = increment_counter (codes "requests_blocked") s.metrics;
      })

  -- The rounds from number `i` on; `draws` gives what each round draws and reads.
  unfoldable pub client_rounds : ℕ → ℕ → (ℕ → Round D) → Session D → Option (Session D)
  unfolding client_round
  client_rounds zero i draws s = some s
  client_rounds (suc left) i draws s =
      client_round i (draws i) s >>= client_rounds left (suc i) draws

  unfoldable pub handle_client_simulation : (ℕ → Round D) → Session D → Option (Session D)
  unfolding client_rounds
  handle_client_simulation draws s = do
    s' ← client_rounds client_requests 0 draws (connect s)
    some (disconnect s')
