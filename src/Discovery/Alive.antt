-- ===== src/Discovery/Alive.antt =====
-- Which nodes NodeDiscovery takes for alive after a heartbeat.
use dist_cache.Prelude.{
  map_some, ◌+◌, ◌≡◌, ◌≢◌, refl, Bool, false, ◌&&◌, not, Option, none, some, arith, ltb,
  if◌then◌else◌, Bool-cases, inl, inr, ◌∙◌, ap,
}
use dist_cache.Text.{Text}
use dist_cache.Text.Order.{text_order}
use dist_cache.OrdMap.{find, equivalent}
use dist_cache.OrdMap.Find.{find-insert, find-map, equivalent-eq}
use dist_cache.Discovery.{
  Discovery, NodeInfo, Time, node_timeout, exchange, expire, touch_self,
  simulate_heartbeat_exchange, cleanup_dead_nodes, broadcast_heartbeat, is_node_alive, alive_in,
}

-- The heartbeat of the node itself leaves what is known of the peers.
touch_self-peer :
    (d : Discovery) (now : Time) (id : Text)
    → id ≢ d.node_id
    → find text_order id (touch_self now d).known_nodes ≡ find text_order id d.known_nodes
unfolding touch_self
touch_self-peer d now id other = elim (Bool-cases (equivalent text_order id d.node_id)) [
  | inl e ↦ absurd (other (equivalent-eq text_order id d.node_id e))
  | inr e ↦ find-insert text_order id d.node_id _ d.known_nodes ∙ rw e refl
]

-- What a round does to a peer.
abbrev pub judged : (Text → Bool) → Time → Time → Text → Option NodeInfo → Bool
judged heard exchanged checked id none = false
judged heard exchanged checked id (some info) =
    if heard id
    then not (ltb (exchanged + node_timeout) checked)
    else info.is_alive && not (ltb (info.last_heartbeat + node_timeout) checked)

alive-round :
    (heard : Text → Bool) (exchanged checked : Time) (self id : Text) (known : Option NodeInfo)
    → id ≢ self
    → alive_in
        (map_some (expire self checked id) (map_some (exchange self heard exchanged id) known))
      ≡ judged heard exchanged checked id known
unfolding exchange expire
alive-round heard exchanged checked self id none other = refl
alive-round heard exchanged checked self id (some info) other = ground (arith, other)

find-exchange :
    (d : Discovery) (heard : Text → Bool) (now : Time) (id : Text)
    → find text_order id (simulate_heartbeat_exchange heard now d).known_nodes
      ≡ map_some (exchange d.node_id heard now id) (find text_order id d.known_nodes)
unfolding simulate_heartbeat_exchange
find-exchange d heard now id = find-map text_order (exchange d.node_id heard now) id d.known_nodes

find-expire :
    (d : Discovery) (now : Time) (id : Text)
    → find text_order id (cleanup_dead_nodes now d).known_nodes
      ≡ map_some (expire d.node_id now id) (find text_order id d.known_nodes)
unfolding cleanup_dead_nodes
find-expire d now id = find-map text_order (expire d.node_id now) id d.known_nodes

-- After a heartbeat a peer is alive exactly if it was heard in this round and the round did not take
-- longer than 15 seconds, or it was not heard, was alive before, and its last heartbeat is not more
-- than 15 seconds old. A node that was never added is not alive.
pub broadcast_heartbeat-alive :
    (d : Discovery) (now exchanged checked : Time) (heard : Text → Bool) (id : Text)
    → id ≢ d.node_id
    → is_node_alive id (broadcast_heartbeat now exchanged checked heard d)
      ≡ judged heard exchanged checked id (find text_order id d.known_nodes)
unfolding is_node_alive broadcast_heartbeat
broadcast_heartbeat-alive d now exchanged checked heard id other =
    let d₁ = touch_self now d in
    let d₂ = simulate_heartbeat_exchange heard exchanged d₁ in
    let self₁ : d₁.node_id ≡ d.node_id = unfold touch_self in refl in
    let self₂ : d₂.node_id ≡ d₁.node_id = unfold simulate_heartbeat_exchange in refl in
    ap alive_in (
      find-expire d₂ checked id
      ∙ ap (map_some (expire d₂.node_id checked id)) (
          find-exchange d₁ heard exchanged id
          ∙ ap (map_some (exchange d₁.node_id heard exchanged id))
              (touch_self-peer d now id other)))
    ∙ rw (self₂, self₁)
        (alive-round heard exchanged checked d.node_id id (find text_order id d.known_nodes) other)
