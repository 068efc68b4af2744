-- ===== src/Discovery/Calls.antt =====
-- NodeDiscovery over any sequence of calls.
use dist_cache.Prelude.{
  ◌≡◌, refl, Bool, true, List, [], ◌∷◌, Option, none, some, arith, All, if_pos, Bool-cases, inl,
  inr, ap, Option-cases, ◌∙◌, sym, map_some,
}
use dist_cache.Prelude.Int.{ℤ}
use dist_cache.Text.{Text, text_dec}
use dist_cache.Text.Order.{text_order}
use dist_cache.OrdMap.{find, insert, equivalent, IsSorted}
use dist_cache.OrdMap.Laws.{insert-IsSorted, insert-All, map-IsSorted}
use dist_cache.OrdMap.Find.{find-insert, find-map, equivalent-eq, equivalent_refl}
use dist_cache.Discovery.{
  Discovery, NodeInfo, Nodes, Time, init, exchange, expire, touch_self, simulate_heartbeat_exchange,
  cleanup_dead_nodes, broadcast_heartbeat, listen_for_heartbeats, add_seed_node, is_node_alive,
  alive_in, info_of, map_nodes,
}

pub data Call : Type 0 where
  broadcast : Time → Time → Time → (Text → Bool) → Call
  listen : (Text → Bool) → Time → Call
  add_seed : Text → Text → ℤ → Time → Call

unfoldable pub step : Discovery → Call → Discovery
step d (broadcast now exchanged checked heard) = broadcast_heartbeat now exchanged checked heard d
step d (listen heard now) = listen_for_heartbeats heard now d
step d (add_seed id address port now) = add_seed_node id address port now d

unfoldable pub run : Discovery → List Call → Discovery
run d [] = d
run d (call ∷ calls) = run (step d call) calls

-- The map is in order, each entry has its key's name, and the node takes itself for alive.
pub record IsSound (d : Discovery) : Type 0 where
  pub sorted : IsSorted text_order d.known_nodes
  pub named : All (λ e. e.1.node_id ≡ e.0) d.known_nodes
  pub self_alive : is_node_alive d.node_id d ≡ true

-- A new entry under its own name, alive if it is the node's own.
insert-IsSound :
    (d : Discovery) (id : Text) (info : NodeInfo)
    → info.node_id ≡ id
    → (id ≡ d.node_id → info.is_alive ≡ true)
    → IsSound d
    → IsSound (record d { known_nodes = insert text_order id info d.known_nodes })
unfolding is_node_alive
insert-IsSound d id info name alive s = record {
  sorted = insert-IsSorted text_order id info d.known_nodes s.sorted;
  named = insert-All text_order (λ e. e.1.node_id ≡ e.0) id info d.known_nodes name s.named;
  self_alive =
      ap alive_in (find-insert text_order d.node_id id info d.known_nodes)
      ∙ elim (Bool-cases (equivalent text_order d.node_id id)) [
        | inl e ↦ rw e (alive (sym (equivalent-eq text_order d.node_id id e)))
        | inr e ↦ rw e s.self_alive
      ];
}

map_some-fixed :
    (g : NodeInfo → NodeInfo)
    → ((info : NodeInfo) → g info ≡ info)
    → (o : Option NodeInfo) → map_some g o ≡ o
map_some-fixed g own none = refl
map_some-fixed g own (some info) = ap some (own info)

map-named :
    (f : Text → NodeInfo → NodeInfo)
    → ((id : Text) (info : NodeInfo) → (f id info).node_id ≡ info.node_id)
    → (nodes : Nodes) → All (λ e. e.1.node_id ≡ e.0) nodes
    → All (λ e. e.1.node_id ≡ e.0) (map_nodes f nodes)
map-named f keeps [] h = tt
map-named f keeps ((id, info) ∷ nodes) h = (keeps id info ∙ h.0, map-named f keeps nodes h.1)

-- A change of the entries that keeps their names, and the node's own entry.
map-IsSound :
    (d : Discovery) (f : Text → NodeInfo → NodeInfo)
    → ((id : Text) (info : NodeInfo) → (f id info).node_id ≡ info.node_id)
    → ((info : NodeInfo) → f d.node_id info ≡ info)
    → IsSound d
    → IsSound (record d { known_nodes = map_nodes f d.known_nodes })
unfolding is_node_alive
map-IsSound d f keeps own s = record {
  sorted = map-IsSorted text_order f d.known_nodes s.sorted;
  named = map-named f keeps d.known_nodes s.named;
  self_alive =
      ap alive_in (find-map text_order f d.node_id d.known_nodes)
      ∙ ap alive_in (map_some-fixed (f d.node_id) own (find text_order d.node_id d.known_nodes))
      ∙ s.self_alive;
}

find-named :
    (id : Text) (nodes : Nodes) (info : NodeInfo)
    → All (λ e. e.1.node_id ≡ e.0) nodes
    → find text_order id nodes ≡ some info
    → info.node_id ≡ id
unfolding find
find-named id [] info h e = cc
find-named id ((j, first) ∷ nodes) info h e = elim (Bool-cases (equivalent text_order id j)) [
  | inl same ↦ ground (arith, same, e, h.0, equivalent-eq text_order id j same)
  | inr other ↦ find-named id nodes info h.1 (ground (arith, other, e))
]

-- The entry of the node itself.
self-entry :
    (d : Discovery)
    → IsSound d
    → (info : NodeInfo) × (find text_order d.node_id d.known_nodes ≡ some info)
      × (info.node_id ≡ d.node_id)
      × (info.is_alive ≡ true)
unfolding is_node_alive
self-entry d s = elim (Option-cases (find text_order d.node_id d.known_nodes)) [
  | inl e ↦ absurd (ground (arith, e, s.self_alive))
  | inr (info, e) ↦ (
    info,
    e,
    find-named d.node_id d.known_nodes info s.named e,
    ap alive_in (sym e) ∙ s.self_alive,
  )
]

touch_self-IsSound : (d : Discovery) (now : Time) → IsSound d → IsSound (touch_self now d)
unfolding touch_self
touch_self-IsSound d now s =
    let (info, e, name, alive) = self-entry d s in
    insert-IsSound d d.node_id _ (ap (λ o. (info_of o).node_id) e ∙ name)
      (λ _. ap (λ o. (info_of o).is_alive) e ∙ alive) s

simulate-IsSound :
    (d : Discovery) (heard : Text → Bool) (now : Time)
    → IsSound d
    → IsSound (simulate_heartbeat_exchange heard now d)
unfolding simulate_heartbeat_exchange exchange
simulate-IsSound d heard now s =
    map-IsSound d (exchange d.node_id heard now) (λ id info. ground arith)
      (λ info. if_pos (text_dec d.node_id d.node_id) refl _ _) s

cleanup-IsSound : (d : Discovery) (now : Time) → IsSound d → IsSound (cleanup_dead_nodes now d)
unfolding cleanup_dead_nodes expire
cleanup-IsSound d now s =
    map-IsSound d (expire d.node_id now) (λ id info. ground arith)
      (λ info. if_pos (text_dec d.node_id d.node_id) refl _ _) s

step-IsSound : (d : Discovery) (call : Call) → IsSound d → IsSound (step d call)
unfolding step
step-IsSound d (broadcast now exchanged checked heard) s =
    unfold broadcast_heartbeat in
    cleanup-IsSound _ checked (simulate-IsSound _ heard exchanged (touch_self-IsSound d now s))
step-IsSound d (listen heard now) s = unfold listen_for_heartbeats in simulate-IsSound d heard now s
step-IsSound d (add_seed id address port now) s =
    unfold add_seed_node in insert-IsSound d id _ refl (λ _. refl) s

pub run-IsSound : (calls : List Call) (d : Discovery) → IsSound d → IsSound (run d calls)
unfolding run
run-IsSound [] d s = s
run-IsSound (call ∷ calls) d s = run-IsSound calls (step d call) (step-IsSound d call s)

pub init-IsSound : (id : Text) (port : ℤ) (now : Time) → IsSound (init id port now)
unfolding init is_node_alive insert find
init-IsSound id port now = record {
  sorted = (tt, tt);
  named = (refl, tt);
  self_alive = rw (equivalent_refl text_order id) refl;
}
