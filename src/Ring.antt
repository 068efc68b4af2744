-- ===== src/Ring.antt =====
-- src/cluster/HashRing.h and HashRing.cpp. A node id, a key and a ring position are a text, a text
-- and a `uint32_t`; what the methods print is left out.
pub mod Lookup
pub mod Removal
pub mod Successor
pub mod Members
use Prim.Native.Nat.{bit_xor}
use dist_cache.Prelude.{
  ℕ, zero, suc, ◌+◌, ◌*◌, ◌-◌, ◌%◌, ◌^◌, Bool, true, false, not, List, [], ◌∷◌, ◌++◌, Option, none,
  some, ltb, if◌then◌else◌, ite, keep_if, length,
}
use dist_cache.Text.{Text, text_dec, codes}
use dist_cache.Text.Decimal.{to_string}
use dist_cache.OrdMap.{insert, lower_bound}
use dist_cache.OrdMap.Compare.{nat_order}

abbrev pub u32_mod : ℕ
u32_mod = 2 ^ 32

-- `static_cast<uint32_t>(c)` of a `char` that is signed, as on x86: the sign is extended.
unfoldable pub char_to_u32 : ℕ → ℕ
char_to_u32 c = if ltb c 128 then c else c + u32_mod - 256

unfoldable pub hash_from : ℕ → Text → ℕ
unfolding char_to_u32
hash_from h [] = h
hash_from h (c ∷ cs) = hash_from ((bit_xor h (char_to_u32 c) * 16777619) % u32_mod) cs

unfoldable pub hash : Text → ℕ
unfolding hash_from
hash = hash_from 2166136261

abbrev pub RingMap : Type 0
RingMap = List (ℕ × Text)

abbrev pub virtual_nodes : ℕ
virtual_nodes = 3

unfoldable pub virtual_node : Text → ℕ → Text
unfolding to_string
virtual_node node_id i = node_id ++ (b':' ∷ to_string i)

-- The loop of `add_node`, with the rounds left; the round's number is `virtual_nodes - left`.
unfoldable pub add_virtual : ℕ → Text → RingMap → RingMap
unfolding virtual_node hash
add_virtual zero node_id ring = ring
add_virtual (suc left) node_id ring =
    add_virtual left node_id
      (insert nat_order (hash (virtual_node node_id (virtual_nodes - suc left))) node_id ring)

unfoldable pub add_node : RingMap → Text → RingMap
unfolding add_virtual
add_node ring node_id = add_virtual virtual_nodes node_id ring

-- The test of `remove_node`'s loop.
abbrev pub is_other : Text → ℕ × Text → Bool
is_other node_id e = ite (text_dec e.1 node_id) false true

unfoldable pub remove_node : RingMap → Text → RingMap
remove_node ring node_id = keep_if (is_other node_id) ring

-- The entry at an iterator, or at `begin()` where the iterator is `end()`.
abbrev pub or_begin : RingMap → RingMap → Option Text
or_begin (e ∷ rest) ring = some e.1
or_begin [] (e ∷ rest) = some e.1
or_begin [] [] = none

-- The owner of a position, `none` on the empty ring.
unfoldable pub owner : ℕ → RingMap → Option Text
owner key_hash ring = or_begin (lower_bound nat_order key_hash ring) ring

unfoldable pub get_node : RingMap → Text → Text
get_node ring key = elim (owner (hash key) ring) [ none ↦ codes "localhost" | some node ↦ node ]

-- `std::find(nodes.begin(), nodes.end(), node) != nodes.end()`
unfoldable pub listed : Text → List Text → Bool
listed node [] = false
listed node (n ∷ nodes) = ite (text_dec n node) true (listed node nodes)

unfoldable pub collect : List (ℕ × Text) → List Text → List Text
collect [] nodes = nodes
collect ((h, node) ∷ rest) nodes =
    collect rest (if listed node nodes then nodes else nodes ++ node ∷ [])

unfoldable pub get_all_nodes : RingMap → List Text
unfolding collect
get_all_nodes ring = collect ring []

-- The text of `print_ring_status`.
unfoldable pub ring_status : RingMap → Text
unfolding to_string get_all_nodes
ring_status ring =
    codes "[HashRing] Status: "
    ++ (to_string (length ring)
        ++ (codes " virtual nodes, "
            ++ (to_string (length (get_all_nodes ring)) ++ codes " physical nodes\n")))
