-- ===== src/Ring/Members.antt =====
-- Whose the points of a ring are that `add_node` and `remove_node` make from the empty one.
use dist_cache.Prelude.{
  ℕ, zero, suc, ◌+◌, ◌-◌, ◌≤◌, ◌<◌, ◌≡◌, ◌∙◌, refl, List, [], ◌∷◌, ◌++◌, some, ite, arith, All,
  All-map, append-nil, append_assoc, keep_if, Bool, true, false, Bool-cases, inl, inr, ◌⊎◌, if_pos,
  if_neg,
}
use dist_cache.Text.{Text, text_dec}
use dist_cache.OrdMap.{insert, find, equivalent}
use dist_cache.OrdMap.Compare.{nat_order}
use dist_cache.OrdMap.Laws.{insert-All}
use dist_cache.OrdMap.Find.{find-insert, equivalent_refl}
use dist_cache.Ring.{RingMap, remove_node, hash, add_node, add_virtual, virtual_node, virtual_nodes}

pub data Change : Type 0 where
  joins : Text → Change
  leaves : Text → Change

abbrev change : RingMap → Change → RingMap
change ring (joins node) = add_node ring node
change ring (leaves node) = remove_node ring node

unfoldable pub changes : RingMap → List Change → RingMap
changes ring [] = ring
changes ring (c ∷ cs) = changes (change ring c) cs

-- Whether the node is one of those that have joined and not left since.
unfoldable pub after_change : Text → Bool → Change → Bool
after_change node was (joins n) = ite (text_dec n node) true was
after_change node was (leaves n) = ite (text_dec n node) false was

unfoldable pub is_in : Text → Bool → List Change → Bool
is_in node was [] = was
is_in node was (c ∷ cs) = is_in node (after_change node was c) cs

is_in-append :
    (node : Text) (was : Bool) (cs : List Change) (c : Change)
    → is_in node was (cs ++ c ∷ []) ≡ after_change node (is_in node was cs) c
unfolding is_in
is_in-append node was [] c = refl
is_in-append node was (x ∷ cs) c = is_in-append node (after_change node was x) cs c

-- Each point is one of a member.
abbrev pub AreMembers : List Change → RingMap → Type 0
AreMembers cs = All (λ e. is_in e.1 false cs ≡ true)

-- The node that joins is a member, and the members stay.
joins-member :
    (node n : Text) (cs : List Change)
    → is_in node false cs ≡ true
    → is_in node false (cs ++ joins n ∷ []) ≡ true
unfolding after_change
joins-member node n cs h = is_in-append node false cs (joins n) ∙ ground (arith, h)

add_virtual-All :
    (P : ℕ × Text → Type 0) (left : ℕ) (n : Text) (ring : RingMap)
    → ((p : ℕ) → P (p, n))
    → All P ring
    → All P (add_virtual left n ring)
unfolding add_virtual
add_virtual-All P zero n ring own h = h
add_virtual-All P (suc left) n ring own h =
    let p = hash (virtual_node n (virtual_nodes - suc left)) in
    add_virtual-All P left n (insert nat_order p n ring) own
      (insert-All nat_order P p n ring (own p) h)

remove-AreMembers :
    (cs : List Change) (n : Text) (ring : RingMap)
    → AreMembers cs ring
    → AreMembers (cs ++ leaves n ∷ []) (remove_node ring n)
unfolding remove_node keep_if after_change
remove-AreMembers cs n [] h = tt
remove-AreMembers cs n ((p, m) ∷ ring) h = elim (text_dec m n) [
  | yes same ↦ rw (if_pos (text_dec m n) same) (remove-AreMembers cs n ring h.1)
  | no other ↦
      let apart : ¬ (n ≡ m) = λ e. other (cc) in
      rw (if_neg (text_dec m n) other) (
        is_in-append m false cs (leaves n) ∙ if_neg (text_dec n m) apart _ _ ∙ h.0,
        remove-AreMembers cs n ring h.1,
      )
]

change-AreMembers :
    (cs : List Change) (c : Change) (ring : RingMap)
    → AreMembers cs ring
    → AreMembers (cs ++ c ∷ []) (change ring c)
unfolding add_node after_change
change-AreMembers cs (joins n) ring h =
    add_virtual-All (λ e. is_in e.1 false (cs ++ joins n ∷ []) ≡ true) virtual_nodes n ring
      (λ p. is_in-append n false cs (joins n) ∙ if_pos (text_dec n n) refl _ _)
      (All-map (λ e. joins-member e.1 n cs) ring h)
change-AreMembers cs (leaves n) ring h = remove-AreMembers cs n ring h

changes-AreMembers :
    (before cs : List Change) (ring : RingMap)
    → AreMembers before ring
    → AreMembers (before ++ cs) (changes ring cs)
unfolding changes
changes-AreMembers before [] ring h = rw (append-nil before) h
changes-AreMembers before (c ∷ cs) ring h =
    rw (← append_assoc before (c ∷ []) cs)
      (changes-AreMembers (before ++ c ∷ []) cs (change ring c) (change-AreMembers before c ring h))

changes-append :
    (ring : RingMap) (cs : List Change) (c : Change)
    → changes ring (cs ++ c ∷ []) ≡ change (changes ring cs) c
unfolding changes
changes-append ring [] c = refl
changes-append ring (x ∷ cs) c = changes-append (change ring x) cs c

-- The loop leaves the node's points.
add_virtual-keeps :
    (left k : ℕ) (n : Text) (ring : RingMap)
    → find nat_order k ring ≡ some n
    → find nat_order k (add_virtual left n ring) ≡ some n
unfolding add_virtual
add_virtual-keeps zero k n ring h = h
add_virtual-keeps (suc left) k n ring h =
    let p = hash (virtual_node n (virtual_nodes - suc left)) in
    add_virtual-keeps left k n (insert nat_order p n ring) (
      find-insert nat_order k p n ring ∙ (elim (Bool-cases (equivalent nat_order k p)) [
        | inl same ↦ rw same refl
        | inr other ↦ rw other h
      ]))

add_virtual-places :
    (left i : ℕ) (n : Text) (ring : RingMap)
    → virtual_nodes ≤ i + left
    → i < virtual_nodes
    → left ≤ virtual_nodes
    → find nat_order (hash (virtual_node n i)) (add_virtual left n ring) ≡ some n
unfolding add_virtual
add_virtual-places zero i n ring low high few = absurd (omega arith)
add_virtual-places (suc left) i n ring low high few =
    let p = hash (virtual_node n (virtual_nodes - suc left)) in
    elim (now_or_later) [
      | inl now ↦ rw (← now) (
          add_virtual-keeps left p n (insert nat_order p n ring)
            (find-insert nat_order p p n ring ∙ rw (equivalent_refl nat_order p) refl))
      | inr later ↦ add_virtual-places left i n (insert nat_order p n ring) later high (omega arith)
    ]
  where
    now_or_later : (virtual_nodes - suc left ≡ i) ⊎ (virtual_nodes ≤ i + left)
    now_or_later = omega arith

-- Whatever nodes join and leave, in any order: every point of the ring is one of a node that has
-- joined and not left since; and as soon as a node joins, each of its virtual nodes is on the ring
-- at its hash as a point of that node.
pub changes-members :
    (cs : List Change) (n : Text) (i : ℕ)
    → i < virtual_nodes
    → AreMembers cs (changes [] cs)
      × (find nat_order (hash (virtual_node n i)) (changes [] (cs ++ joins n ∷ [])) ≡ some n)
unfolding add_node
changes-members cs n i h = (
  changes-AreMembers [] cs [] tt,
  rw (changes-append [] cs (joins n))
      (add_virtual-places virtual_nodes i n (changes [] cs) (omega arith) h (omega arith)),
)
