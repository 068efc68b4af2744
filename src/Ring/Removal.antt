-- ===== src/Ring/Removal.antt =====
-- The keys of a node that leaves, and the keys of the others.
use dist_cache.Prelude.{
  ℕ, ◌≡◌, ◌≢◌, refl, ap, sym, ◌∙◌, inl, inr, Bool, true, false, ◌||◌, List, [], ◌∷◌, ◌++◌, none,
  some, arith, All, ite, keep_if, Bool-cases, Option-cases, List-cases,
}
use dist_cache.Text.{Text, text_dec, codes}
use dist_cache.OrdMap.{lower_bound}
use dist_cache.OrdMap.Compare.{nat_order}
use dist_cache.Ring.{
  RingMap, remove_node, or_begin, owner, get_node, hash, listed, collect, get_all_nodes,
}
use dist_cache.Ring.Lookup.{owner-remove_node}

owner-eq-none : (h : ℕ) (ring : RingMap) → owner h ring ≡ none → ring ≡ []
unfolding owner
owner-eq-none h [] e = refl
owner-eq-none h (x ∷ ring) e = elim (List-cases (lower_bound nat_order h (x ∷ ring))) [
  | inl past ↦ ground (arith, past)
  | inr (y, rest, found) ↦ ground (arith, found)
]

-- The removal of a node moves no key that another node owns.
pub get_node-remove_node :
    (ring : RingMap) (node key : Text)
    → get_node ring key ≢ node
    → get_node (remove_node ring node) key ≡ get_node ring key
unfolding get_node
get_node-remove_node ring node key ne = elim (Option-cases (owner (hash key) ring)) [
  | inl nobody ↦ rw (owner-eq-none (hash key) ring nobody) (unfold remove_node keep_if in refl)
  | inr (other, owns) ↦
      let same : get_node ring key ≡ other = ground (arith, owns) in
      let kept = owner-remove_node (hash key) node other ring owns (λ e. ne (same ∙ e)) in
      ground (arith, kept, owns)
]

-- No entry of the ring is the node's.
abbrev pub Free : Text → RingMap → Type 0
Free node = All (λ e. e.1 ≢ node)

remove_node-Free : (node : Text) (ring : RingMap) → Free node (remove_node ring node)
unfolding remove_node keep_if
remove_node-Free node [] = tt
remove_node-Free node ((p, n) ∷ ring) = ground (arith, remove_node-Free node ring)

lower_bound-Free :
    (h : ℕ) (node : Text) (ring : RingMap)
    → Free node ring
    → Free node (lower_bound nat_order h ring)
unfolding lower_bound
lower_bound-Free h node [] free = tt
lower_bound-Free h node ((p, n) ∷ ring) free = ground (arith, free.0, lower_bound-Free h node ring)

or_begin-Free :
    (node : Text) (part ring : RingMap)
    → Free node part
    → Free node ring
    → or_begin part ring ≢ some node
or_begin-Free node (x ∷ part) ring f g = λ e. f.0 (cc)
or_begin-Free node [] (x ∷ ring) f g = λ e. g.0 (cc)
or_begin-Free node [] [] f g = λ e. cc

owner-Free : (h : ℕ) (node : Text) (ring : RingMap) → Free node ring → owner h ring ≢ some node
unfolding owner
owner-Free h node ring free = or_begin-Free node _ ring (lower_bound-Free h node ring free) free

-- A removed node gets no key, but for a node that has the name of the fallback.
pub get_node_removed :
    (ring : RingMap) (node key : Text)
    → node ≢ codes "localhost"
    → get_node (remove_node ring node) key ≢ node
unfolding get_node
get_node_removed ring node key ne =
    let free = owner-Free (hash key) node (remove_node ring node) (remove_node-Free node ring) in
    elim (Option-cases (owner (hash key) (remove_node ring node))) [
      | inl nobody ↦ rw (get_node, nobody) (λ e. ne (sym e))
      | inr (other, owns) ↦ rw (get_node, owns) (λ e. free (owns ∙ ap some e))
    ]

listed-append :
    (node n : Text) (nodes : List Text)
    → listed node (nodes ++ n ∷ []) ≡ ite (text_dec n node) true (listed node nodes)
unfolding listed
listed-append node n [] = refl
listed-append node n (m ∷ nodes) = ground (arith, listed-append node n nodes)

-- The list gets exactly the nodes that it had, and those that have an entry.
abbrev has_entry : Text → RingMap → Bool
has_entry node [] = false
has_entry node ((p, n) ∷ ring) = ite (text_dec n node) true (has_entry node ring)

listed-collect :
    (ring : RingMap) (nodes : List Text) (node : Text)
    → listed node (collect ring nodes) ≡ (listed node nodes || has_entry node ring)
unfolding collect
listed-collect [] nodes node = ground arith
listed-collect ((p, n) ∷ ring) nodes node = ground (
  arith,
  listed-collect ring nodes node,
  listed-collect ring (nodes ++ n ∷ []) node,
  listed-append node n nodes,
)

not-has_entry-Free : (node : Text) (ring : RingMap) → has_entry node ring ≡ false → Free node ring
not-has_entry-Free node [] h = tt
not-has_entry-Free node ((p, n) ∷ ring) h = ground (arith, not-has_entry-Free node ring)

has_entry-remove_node :
    (ring : RingMap) (node other : Text)
    → has_entry other (remove_node ring node)
      ≡ ite (text_dec other node) false (has_entry other ring)
unfolding remove_node keep_if
has_entry-remove_node [] node other = ground arith
has_entry-remove_node ((p, n) ∷ ring) node other =
    ground (arith, has_entry-remove_node ring node other)

-- On a ring that is not empty `get_node` answers one of the nodes that `get_all_nodes` lists.
pub listed-get_node :
    (ring : RingMap) (key : Text)
    → ring ≢ []
    → listed (get_node ring key) (get_all_nodes ring) ≡ true
unfolding get_node get_all_nodes
listed-get_node ring key some_entry = elim (Option-cases (owner (hash key) ring)) [
  | inl nobody ↦ absurd (some_entry (owner-eq-none (hash key) ring nobody))
  | inr (node, owns) ↦ elim (Bool-cases (has_entry node ring)) [
    | inl held ↦ ground (arith, owns, listed-collect ring [] node, held)
    | inr free ↦ absurd (owner-Free (hash key) node ring (not-has_entry-Free node ring free) owns)
  ]
]

listed-get_all_nodes :
    (ring : RingMap) (node : Text) → listed node (get_all_nodes ring) ≡ has_entry node ring
unfolding get_all_nodes
listed-get_all_nodes ring node = listed-collect ring [] node ∙ (unfold listed in refl)

-- After its removal a node is listed no more, and any other node is listed just as before.
pub get_all_nodes-remove_node :
    (ring : RingMap) (node other : Text)
    → listed other (get_all_nodes (remove_node ring node))
      ≡ ite (text_dec other node) false (listed other (get_all_nodes ring))
get_all_nodes-remove_node ring node other =
    listed-get_all_nodes (remove_node ring node) other
    ∙ has_entry-remove_node ring node other
    ∙ ap (ite (text_dec other node) false) (sym (listed-get_all_nodes ring other))
