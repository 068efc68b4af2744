-- ===== src/Ring/Lookup.antt =====
-- Which node owns a position of the ring, when nodes come and go.
use dist_cache.Prelude.{
  ℕ, zero, suc, ◌-◌, ◌≡◌, ◌≢◌, refl, ap, sym, ◌∙◌, ◌⊎◌, inl, inr, [], ◌∷◌, Option, none, some,
  arith, ltb, keep_if, Bool-cases, List-cases,
}
use dist_cache.Text.{Text}
use dist_cache.OrdMap.{insert, lower_bound}
use dist_cache.OrdMap.Compare.{nat_order}
use dist_cache.Ring.{
  RingMap, is_other, remove_node, or_begin, owner, get_node, hash, add_node, add_virtual,
  virtual_node, virtual_nodes,
}

abbrev bound : ℕ → RingMap → RingMap
bound = lower_bound nat_order

-- The first entry at or behind a position stays the first where another node is removed.
bound-remove_some :
    (h : ℕ) (node : Text) (ring : RingMap) (x : ℕ × Text) (rest : RingMap)
    → bound h ring ≡ x ∷ rest
    → x.1 ≢ node
    → (rest' : RingMap) × (bound h (remove_node ring node) ≡ x ∷ rest')
unfolding lower_bound remove_node keep_if
bound-remove_some h node [] x rest e ne = absurd (cc)
bound-remove_some h node ((p, n) ∷ ring) x rest e ne = elim (Bool-cases (ltb p h)) [
  | inl before ↦
      let (rest', found) = bound-remove_some h node ring x rest (ground (arith, e)) ne in
      (rest', ground (arith, found))
  | inr here ↦ (keep_if (is_other node) ring, ground (arith, e))
]

bound-remove_none :
    (h : ℕ) (node : Text) (ring : RingMap)
    → bound h ring ≡ []
    → bound h (remove_node ring node) ≡ []
unfolding lower_bound remove_node keep_if
bound-remove_none h node [] e = refl
bound-remove_none h node ((p, n) ∷ ring) e = ground (arith, bound-remove_none h node ring)

begin-remove :
    (node : Text) (p : ℕ) (n : Text) (ring : RingMap)
    → n ≢ node
    → or_begin [] (remove_node ((p, n) ∷ ring) node) ≡ some n
unfolding remove_node keep_if
begin-remove node p n ring ne = ground arith

-- A position that another node owns keeps its owner.
pub owner-remove_node :
    (h : ℕ) (node other : Text) (ring : RingMap)
    → owner h ring ≡ some other
    → other ≢ node
    → owner h (remove_node ring node) ≡ some other
unfolding owner
owner-remove_node h node other [] e ne = absurd (unfold lower_bound in cc)
owner-remove_node h node other ((p, n) ∷ ring) e ne = elim (List-cases (bound h ((p, n) ∷ ring))) [
  | inl past ↦
      let same : n ≡ other = ground (arith, past) in
      rw (bound-remove_none h node ((p, n) ∷ ring) past)
        (begin-remove node p n ring (λ q. ne (sym same ∙ q)) ∙ ap some same)
  | inr (x, rest, found) ↦
      let same : x.1 ≡ other = ground (arith, found) in
      let (rest', kept) =
        bound-remove_some h node ((p, n) ∷ ring) x rest found (λ q. ne (sym same ∙ q)) in
      rw kept (ap some same)
]

-- The node that stands first in a part of the ring.
abbrev first : RingMap → Option Text
first [] = none
first (e ∷ rest) = some e.1

or_begin-first :
    (part ring : RingMap)
    → or_begin part ring ≡ elim (first part) [ none ↦ first ring | some n ↦ some n ]
or_begin-first (e ∷ part) ring = refl
or_begin-first [] (e ∷ ring) = refl
or_begin-first [] [] = refl

-- What stands first at or behind a position after an insertion: the new entry, or what stood there.
first-bound-insert :
    (h p : ℕ) (n : Text) (ring : RingMap)
    → (first (bound h (insert nat_order p n ring)) ≡ some n)
      ⊎ (first (bound h (insert nat_order p n ring)) ≡ first (bound h ring))
unfolding lower_bound insert
first-bound-insert h p n [] = ground arith
first-bound-insert h p n ((j, w) ∷ ring) = ground (arith, first-bound-insert h p n ring)

first-insert :
    (p : ℕ) (n : Text) (ring : RingMap)
    → (first (insert nat_order p n ring) ≡ some n)
      ⊎ (first (insert nat_order p n ring) ≡ first ring)
unfolding insert
first-insert p n [] = ground arith
first-insert p n ((j, w) ∷ ring) = ground arith

owner-insert :
    (h p : ℕ) (n : Text) (ring : RingMap)
    → (owner h (insert nat_order p n ring) ≡ some n)
      ⊎ (owner h (insert nat_order p n ring) ≡ owner h ring)
unfolding owner
owner-insert h p n ring =
    let new = insert nat_order p n ring in
    ground (
      arith,
      or_begin-first (bound h new) new,
      or_begin-first (bound h ring) ring,
      first-bound-insert h p n ring,
      first-insert p n ring,
    )

owner-add_virtual :
    (left h : ℕ) (n : Text) (ring : RingMap)
    → (owner h (add_virtual left n ring) ≡ some n)
      ⊎ (owner h (add_virtual left n ring) ≡ owner h ring)
unfolding add_virtual
owner-add_virtual zero h n ring = inr refl
owner-add_virtual (suc left) h n ring =
    let p = hash (virtual_node n (virtual_nodes - suc left)) in
    ground (arith, owner-insert h p n ring, owner-add_virtual left h n (insert nat_order p n ring))

-- A new node takes keys over, and moves no key between the nodes that were there before.
pub get_node-add_node :
    (ring : RingMap) (node key : Text)
    → (get_node (add_node ring node) key ≡ node)
      ⊎ (get_node (add_node ring node) key ≡ get_node ring key)
unfolding get_node add_node
get_node-add_node ring node key =
    ground (arith, owner-add_virtual virtual_nodes (hash key) node ring)
