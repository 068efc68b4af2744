-- ===== src/Tests/Nodes.antt =====
-- NodeDiscovery, the metrics and the dashboard on concrete inputs.
use dist_cache.Prelude.{ℕ, ◌≡◌, ◌+◌, arith, refl, Bool, true, false, List, [], ◌∷◌, All}
use dist_cache.Prelude.Int.{pos}
use dist_cache.Text.{Text, text_dec, codes}
use dist_cache.Text.Order.{less, text_order}
use dist_cache.Text.Decimal.{to_string}
use dist_cache.OrdMap.{find, insert}
use dist_cache.Discovery.{
  Discovery, node_timeout, init, touch_self, exchange, expire, simulate_heartbeat_exchange,
  cleanup_dead_nodes, broadcast_heartbeat, listen_for_heartbeats, is_node_alive, get_alive_nodes,
  alive_nodes, add_seed_node,
}
use dist_cache.Discovery.Alive.{judged, broadcast_heartbeat-alive}
use dist_cache.Discovery.Calls.{Call, broadcast, add_seed, step, run}
use dist_cache.Discovery.Listing.{lists, run-alive}
use dist_cache.Metrics
use dist_cache.Metrics.{
  Metrics, increment_counter, record_latency, counter, generate_json, record_active_connections,
}
use dist_cache.Metrics.Races.{
  Machine, Outcome, access, access_all, mixes, latency_accesses, load, store, count, mixes-Outcome,
}
use dist_cache.Breaker
use dist_cache.Breaker.{get_state_string}
use dist_cache.Ring.{listed, get_all_nodes}
use dist_cache.Dashboard.{generate_status_report}

program : Unit {0}
unfolding less find insert init touch_self exchange expire simulate_heartbeat_exchange
    cleanup_dead_nodes broadcast_heartbeat listen_for_heartbeats is_node_alive get_alive_nodes
    alive_nodes add_seed_node step run text_dec Metrics.init increment_counter record_latency
    counter generate_json to_string access access_all mixes generate_status_report Breaker.init
    get_state_string get_all_nodes record_active_connections
program = tt

abbrev unheard : Text → Bool
unheard id = false

abbrev calls : List Call
calls =
    add_seed (codes "b") (codes "10.0.0.2") (pos 6379) 5
    ∷ broadcast 6 7 (6 + node_timeout) unheard
    ∷ []

abbrev after : Discovery
after = run (init (codes "a") (pos 6379) 0) calls

-- A seed node that is not heard for 15 seconds and a moment is dead.
peer_dies : is_node_alive (codes "b") after ≡ false
unfolding program
peer_dies = refl

self_lives : is_node_alive (codes "a") after ≡ true
unfolding program
self_lives = refl

broadcast_heartbeat-alive_example :
    is_node_alive (codes "b") (broadcast_heartbeat 6 7 8 unheard after)
    ≡ judged unheard 7 8 (codes "b") (find text_order (codes "b") after.known_nodes)
unfolding program
broadcast_heartbeat-alive_example =
    broadcast_heartbeat-alive after 6 7 8 unheard (codes "b") (λ e. ground arith)

run-alive_example :
    (is_node_alive after.node_id after ≡ true)
    × (lists (codes "b") (get_alive_nodes after) ≡ is_node_alive (codes "b") after)
run-alive_example = run-alive (codes "a") (pos 6379) 0 calls (codes "b")

abbrev machine : Machine ℕ
machine = record { metrics = Metrics.init 10; old_val = λ t. 0 }

-- Both threads load before either stores.
update_lost :
    (access_all
      (◌+◌)
      machine
      (load 1 ∷ load 2 ∷ store 1 3 ∷ store 2 4 ∷ count ∷ count ∷ [])).metrics.total_latency
    ≡ 14
unfolding program
update_lost = refl

mixes-Outcome_example :
    All
      (λ order. Outcome (◌+◌) machine.metrics 3 4 (access_all (◌+◌) machine order).metrics)
      (mixes (latency_accesses 1 3) (latency_accesses 2 4))
mixes-Outcome_example = mixes-Outcome (◌+◌) machine 3 4

json :
    generate_json (record_latency (◌+◌) 250 (Metrics.init 0))
    ≡ codes "{\"latency\":5.5,\"requests\":1}"
unfolding program
json = refl

report :
    generate_status_report {D = ℕ}
      (Breaker.init (pos 5) (pos 30000))
      ((1, codes "n1") ∷ (7, codes "n2") ∷ (9, codes "n1") ∷ [])
      (Metrics.init 0)
    ≡ codes
        "\n=== DistCache Status Report ===\nCircuit Breaker: CLOSED (failures: 0)\nHash Ring: 2 nodes [n1, n2]\nMetrics: {\"latency\":5.5,\"requests\":0}\n===============================\n\n"
unfolding program listed
report = refl
