-- ===== src/Discovery/Listing.antt =====
-- The nodes that `get_alive_nodes` of NodeDiscovery.cpp lists.
use dist_cache.Prelude.{
  ◌≡◌, ◌≢◌, refl, Bool, true, false, List, [], ◌∷◌, All, ite, if_pos, if_neg, Bool-cases, inl, inr,
  ap, ◌∙◌, sym,
}
use dist_cache.Prelude.Int.{ℤ}
use dist_cache.Text.{Text, text_dec}
use dist_cache.Text.Order.{less, text_order}
use mathlib.Core.Path.{subst}
use dist_cache.OrdMap.{find, equivalent, IsSorted}
use dist_cache.OrdMap.Find.{find_beyond, equivalent-eq, equivalent_refl}
use dist_cache.Discovery.{
  NodeInfo, Nodes, Time, init, is_node_alive, alive_in, alive_nodes, get_alive_nodes,
}
use dist_cache.Discovery.Calls.{Call, run, run-IsSound, init-IsSound}

-- Whether a list of nodes has one of this name.
abbrev pub lists : Text → List NodeInfo → Bool
lists id [] = false
lists id (info ∷ infos) = ite (text_dec info.node_id id) true (lists id infos)

-- The entry of the name itself: where it is dead, no later entry has the name.
lists-same :
    (id j : Text) (info : NodeInfo) (nodes : Nodes)
    → id ≡ j
    → info.node_id ≡ j
    → All (λ e. less j e.0 ≡ true) nodes
    → lists id (alive_nodes nodes) ≡ alive_in (find text_order id nodes)
    → lists id (alive_nodes ((j, info) ∷ nodes)) ≡ info.is_alive
unfolding alive_nodes
lists-same id j info nodes same name beyond ih = elim (Bool-cases info.is_alive) [
  | inl alive ↦ rw alive (if_pos (text_dec info.node_id id) (name ∙ sym same) _ _)
  | inr dead ↦
      let none_left =
        find_beyond text_order id nodes (
          subst (λ k. All {A = Text × NodeInfo} (λ e. less k e.0 ≡ true) nodes) (sym same)
            beyond) in
      rw dead (ih ∙ ap alive_in none_left)
]

lists-other :
    (id j : Text) (info : NodeInfo) (nodes : Nodes)
    → info.node_id ≢ id
    → lists id (alive_nodes ((j, info) ∷ nodes)) ≡ lists id (alive_nodes nodes)
unfolding alive_nodes
lists-other id j info nodes name = elim (Bool-cases info.is_alive) [
  | inl alive ↦ rw alive (if_neg (text_dec info.node_id id) name _ _)
  | inr dead ↦ rw dead refl
]

not_equivalent : (id j name : Text) → equivalent text_order id j ≡ false → name ≡ j → name ≢ id
not_equivalent id j name other h e =
    let same = ap (equivalent text_order id) (sym e ∙ h) in
    let own = equivalent_refl text_order id in absurd cc

lists-alive_nodes :
    (id : Text) (nodes : Nodes)
    → IsSorted text_order nodes
    → All (λ e. e.1.node_id ≡ e.0) nodes
    → lists id (alive_nodes nodes) ≡ alive_in (find text_order id nodes)
unfolding find
lists-alive_nodes id [] s n = unfold alive_nodes in refl
lists-alive_nodes id ((j, info) ∷ nodes) s n =
    let ih = lists-alive_nodes id nodes s.1 n.1 in
    elim (Bool-cases (equivalent text_order id j)) [
      | inl same ↦
          lists-same id j info nodes (equivalent-eq text_order id j same) n.0 s.0 ih ∙ rw same refl
      | inr other ↦
          lists-other id j info nodes (not_equivalent id j info.node_id other n.0)
          ∙ ih
          ∙ rw other refl
    ]

-- Whatever is called on a new node, it takes itself for alive, and `get_alive_nodes` lists exactly
-- the nodes that `is_node_alive` affirms.
pub run-alive :
    (self : Text) (port : ℤ) (now : Time) (calls : List Call) (id : Text)
    → (is_node_alive (run (init self port now) calls).node_id (run (init self port now) calls)
        ≡ true)
      × (lists id (get_alive_nodes (run (init self port now) calls))
          ≡ is_node_alive id (run (init self port now) calls))
unfolding is_node_alive get_alive_nodes
run-alive self port now calls id =
    let s = run-IsSound calls (init self port now) (init-IsSound self port now) in
    (s.self_alive, lists-alive_nodes id _ s.sorted s.named)
