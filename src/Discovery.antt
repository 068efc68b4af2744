-- ===== src/Discovery.antt =====
-- src/cluster/NodeDiscovery.h and NodeDiscovery.cpp. What the clock says at each reading is an
-- argument, and so is the outcome of the random draw for each peer, `heard`. What the methods print
-- is left out.
pub mod Alive
pub mod Calls
pub mod Listing
use dist_cache.Prelude.{
  ℕ, ◌+◌, ◌*◌, Bool, true, false, ◌&&◌, not, List, [], ◌∷◌, Option, none, some, ltb, if◌then◌else◌,
  ite, map,
}
use dist_cache.Prelude.Int.{ℤ, pos}
use dist_cache.Text.{Text, text_dec, codes}
use dist_cache.Text.Order.{text_order}
use dist_cache.OrdMap.{find, insert}

-- A time point in nanoseconds.
abbrev pub Time : Type 0
Time = ℕ

pub record NodeInfo : Type 0 where
  pub node_id : Text
  pub address : Text
  pub port : ℤ
  pub last_heartbeat : Time
  pub is_alive : Bool

abbrev pub Nodes : Type 0
Nodes = List (Text × NodeInfo)

pub record Discovery : Type 0 where
  pub node_id : Text
  pub address : Text
  pub port : ℤ
  pub known_nodes : Nodes

-- `NODE_TIMEOUT_MS`, in nanoseconds.
abbrev pub node_timeout : Time
node_timeout = 15000 * 1_000_000

unfoldable pub init : Text → ℤ → Time → Discovery
init node_id port now = record {
  node_id = node_id;
  address = codes "localhost";
  port = port;
  known_nodes =
      insert text_order node_id
        (record {
          node_id = node_id;
          address = codes "localhost";
          port = port;
          last_heartbeat = now;
          is_alive = true;
        })
        [];
}

-- What `known_nodes_[node_id]` makes of a key that is missing.
abbrev pub blank_info : NodeInfo
blank_info = record {
  node_id = [];
  address = [];
  port = pos 0;
  last_heartbeat = 0;
  is_alive = false;
}

abbrev pub info_of : Option NodeInfo → NodeInfo
info_of none = blank_info
info_of (some info) = info

-- `known_nodes_[node_id_].last_heartbeat = now`
unfoldable pub touch_self : Time → Discovery → Discovery
touch_self now d = record d {
  known_nodes =
      insert text_order d.node_id
        (record (info_of (find text_order d.node_id d.known_nodes)) { last_heartbeat = now })
        d.known_nodes;
}

-- The body of the loop over the nodes, for each of the two methods.
unfoldable pub exchange : Text → (Text → Bool) → Time → Text → NodeInfo → NodeInfo
exchange self heard now node_id info =
    ite (text_dec node_id self) info
      (if heard node_id then record info { last_heartbeat = now; is_alive = true } else info)

unfoldable pub expire : Text → Time → Text → NodeInfo → NodeInfo
expire self now node_id info = ite (text_dec node_id self) info (
    if ltb (info.last_heartbeat + node_timeout) now then record info { is_alive = false } else info)

abbrev pub map_nodes : (Text → NodeInfo → NodeInfo) → Nodes → Nodes
map_nodes f = map (λ e. (e.0, f e.0 e.1))

unfoldable pub simulate_heartbeat_exchange : (Text → Bool) → Time → Discovery → Discovery
unfolding exchange
simulate_heartbeat_exchange heard now d = record d {
  known_nodes = map_nodes (exchange d.node_id heard now) d.known_nodes;
}

unfoldable pub cleanup_dead_nodes : Time → Discovery → Discovery
unfolding expire
cleanup_dead_nodes now d = record d { known_nodes = map_nodes (expire d.node_id now) d.known_nodes }

-- The three readings of the clock, in order.
unfoldable pub broadcast_heartbeat : Time → Time → Time → (Text → Bool) → Discovery → Discovery
unfolding touch_self simulate_heartbeat_exchange cleanup_dead_nodes
broadcast_heartbeat now exchanged checked heard d =
    cleanup_dead_nodes checked (simulate_heartbeat_exchange heard exchanged (touch_self now d))

unfoldable pub listen_for_heartbeats : (Text → Bool) → Time → Discovery → Discovery
unfolding simulate_heartbeat_exchange
listen_for_heartbeats heard now d = simulate_heartbeat_exchange heard now d

unfoldable pub alive_nodes : Nodes → List NodeInfo
alive_nodes [] = []
alive_nodes ((node_id, info) ∷ nodes) =
    let rest = alive_nodes nodes in if info.is_alive then info ∷ rest else rest

unfoldable pub get_alive_nodes : Discovery → List NodeInfo
unfolding alive_nodes
get_alive_nodes d = alive_nodes d.known_nodes

abbrev pub alive_in : Option NodeInfo → Bool
alive_in none = false
alive_in (some info) = info.is_alive

unfoldable pub is_node_alive : Text → Discovery → Bool
is_node_alive node_id d = alive_in (find text_order node_id d.known_nodes)

unfoldable pub add_seed_node : Text → Text → ℤ → Time → Discovery → Discovery
add_seed_node node_id address port now d = record d {
  known_nodes =
      insert text_order node_id
        (record {
          node_id = node_id;
          address = address;
          port = port;
          last_heartbeat = now;
          is_alive = true;
        })
        d.known_nodes;
}
