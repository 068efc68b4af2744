-- ===== src/Tests/Rings.antt =====
-- HashRing on the nodes of main.cpp.
use dist_cache.Ring.Members.{Change, joins, leaves, changes, AreMembers, changes-members}
use dist_cache.Prelude.{ℕ, ◌≡◌, ◌≢◌, ◌⊎◌, ◌++◌, refl, List, [], ◌∷◌, some, arith, keep_if}
use dist_cache.Text.{text_dec, codes}
use dist_cache.OrdMap.{insert, lower_bound, find}
use dist_cache.OrdMap.Compare.{nat_order}
use dist_cache.Ring.{
  virtual_node, RingMap, hash, add_node, remove_node, get_node, owner, listed, get_all_nodes,
}
use dist_cache.Ring.Lookup.{get_node-add_node}
use dist_cache.Ring.Removal.{get_node-remove_node}
use dist_cache.Ring.Successor.{Sorted, Follows, get_node-Follows}

program : Unit {0}
unfolding hash add_node remove_node get_node owner listed get_all_nodes insert lower_bound find
    keep_if text_dec
program = tt

abbrev three : RingMap
three = (100, codes "node-1") ∷ (2000000000, codes "node-2") ∷ (4000000000, codes "node-3") ∷ []

three-Sorted : Sorted three
three-Sorted = ((refl, (refl, tt)), ((refl, tt), (tt, tt)))

-- FNV-1a of "a".
hash_a : hash (codes "a") ≡ 0xe40c292c
unfolding program
hash_a = refl

added :
    get_all_nodes (add_node (add_node [] (codes "node-1")) (codes "node-2"))
    ≡ codes "node-2" ∷ codes "node-1" ∷ []
unfolding program
added = refl

-- The hash of "a" lies between the second position and the third.
owner_of_a : get_node three (codes "a") ≡ codes "node-3"
unfolding program
owner_of_a = refl

get_node-add_node_example :
    (get_node (add_node three (codes "n")) (codes "a") ≡ codes "n")
    ⊎ (get_node (add_node three (codes "n")) (codes "a") ≡ get_node three (codes "a"))
get_node-add_node_example = get_node-add_node three (codes "n") (codes "a")

a_not_on_one : get_node three (codes "a") ≢ codes "node-1"
a_not_on_one = rw owner_of_a (λ e. ground arith)

get_node-remove_node_example :
    get_node (remove_node three (codes "node-1")) (codes "a") ≡ get_node three (codes "a")
get_node-remove_node_example = get_node-remove_node three (codes "node-1") (codes "a") a_not_on_one

get_node-Follows_example :
    (p : ℕ) × (find nat_order p three ≡ some (get_node three (codes "a")))
    × Follows (hash (codes "a")) p three
get_node-Follows_example = get_node-Follows three (codes "a") three-Sorted (λ e. cc)

abbrev some_changes : List Change
some_changes = joins (codes "node-1") ∷ joins (codes "node-2") ∷ leaves (codes "node-1") ∷ []

changes-members_example :
    AreMembers some_changes (changes [] some_changes)
    × (find nat_order
          (hash (virtual_node (codes "node-1") 2))
          (changes [] (some_changes ++ joins (codes "node-1") ∷ []))
        ≡ some (codes "node-1"))
changes-members_example = changes-members some_changes (codes "node-1") 2 (omega arith)
