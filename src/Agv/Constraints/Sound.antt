-- ===== src/Agv/Constraints/Sound.antt =====
-- An order that the checks let pass is well formed.
use vda_5050_lib_js.Common.{
  Bool-cases, List, Option, [], arith, eq_Option, eq_iff, eq_ℕ, false, inl, inr, length, none, some,
  suc, true, ℕ, ◌+◌, ◌∷◌, ◌≡◌,
}
use vda_5050_lib_js.Vda.{Edge, Node, Order}
use vda_5050_lib_js.Agv.Constraints.{
  >>=-eq-passed, check_edge, check_edges, check_nodes, check_rest, is_base_start, passed,
  validate_order_constraints,
}
use vda_5050_lib_js.Agv.Constraints.Route.{
  IsRoute, IsSequence, IsWellFormed, Leg, first_horizon_index, first_horizon_index-ne, Starts,
}

-- Behind the first horizon node the loop only passes over horizon nodes.
check_nodes_horizon :
    (p : Node) (i : ℕ) (fh r : Option ℕ) (ns : List Node)
    → p.released ≡ false
    → check_nodes (some p) i false fh ns ≡ passed r
    → (r ≡ fh) × IsSequence p ns
unfolding check_nodes
check_nodes_horizon p i fh r [] h e = (cc, tt)
check_nodes_horizon p i fh r (n ∷ ns) h e = ground (arith, check_nodes_horizon n (suc i) fh r ns)

check_nodes_base :
    (p : Node) (i : ℕ) (r : Option ℕ) (ns : List Node)
    → p.released ≡ true
    → check_nodes (some p) i true none ns ≡ passed r
    → (r ≡ first_horizon_index i ns) × IsSequence p ns
unfolding check_nodes first_horizon_index
check_nodes_base p i r [] h e = (cc, tt)
check_nodes_base p i r (n ∷ ns) h e =
    ground (arith, check_nodes_base n (suc i) r ns, check_nodes_horizon n (suc i) (some i) r ns)

-- A round of the loop over the edges that passes, in the base and behind it.
check_edge-Leg_base :
    (i : ℕ) (n m : Node) (ns : List Node) (e : Edge)
    → n.released ≡ true
    → m.sequence_id ≡ n.sequence_id + 2
    → check_edge (first_horizon_index (suc i) (m ∷ ns)) i true n e m ≡ passed tt
    → Leg n e m × (e.released ≡ m.released)
unfolding check_edge first_horizon_index
check_edge-Leg_base i n m ns e h k c = ground (
  arith,
  eq_iff e.start_node_id n.node_id,
  eq_iff e.end_node_id m.node_id,
  first_horizon_index-ne (suc (suc i)) (suc i) ns,
  (eq_Option ⦃e = eq_ℕ⦄).same_iff (first_horizon_index (suc (suc i)) ns) (some (suc i)),
)

check_edge-Leg_horizon :
    (fh : Option ℕ) (i : ℕ) (n m : Node) (e : Edge)
    → m.released ≡ false
    → m.sequence_id ≡ n.sequence_id + 2
    → check_edge fh i false n e m ≡ passed tt
    → Leg n e m × (e.released ≡ false)
unfolding check_edge
check_edge-Leg_horizon fh i n m e h k c =
    ground (arith, eq_iff e.start_node_id n.node_id, eq_iff e.end_node_id m.node_id)

check_edges_horizon :
    (fh : Option ℕ) (i : ℕ) (n : Node) (ns : List Node) (es : List Edge)
    → length es ≡ length ns
    → n.released ≡ false
    → IsSequence n ns
    → check_edges fh i false (n ∷ ns) es ≡ passed tt
    → IsRoute n ns es
unfolding check_edges
check_edges_horizon fh i n [] [] l h s c = tt
check_edges_horizon fh i n [] (e ∷ es) l h s c = absurd (omega arith)
check_edges_horizon fh i n (m ∷ ns) [] l h s c = absurd (omega arith)
check_edges_horizon fh i n (m ∷ ns) (e ∷ es) l h (k, f, s) c =
    let (_, here, later) = >>=-eq-passed (check_edge fh i false n e m) _ c in
    let (leg, _) = check_edge-Leg_horizon fh i n m e (f h) k here in
    (leg, check_edges_horizon fh (suc i) m ns es (omega arith) (f h) s later)

check_edges_base :
    (i : ℕ) (n : Node) (ns : List Node) (es : List Edge)
    → length es ≡ length ns
    → n.released ≡ true
    → IsSequence n ns
    → check_edges (first_horizon_index (suc i) ns) i true (n ∷ ns) es ≡ passed tt
    → IsRoute n ns es
unfolding check_edges first_horizon_index
check_edges_base i n [] [] l h s c = tt
check_edges_base i n [] (e ∷ es) l h s c = absurd (omega arith)
check_edges_base i n (m ∷ ns) [] l h s c = absurd (omega arith)
check_edges_base i n (m ∷ ns) (e ∷ es) l h (k, f, s) c =
    let (_, here, later) = >>=-eq-passed (check_edge _ i true n e m) _ c in
    let (leg, same) = check_edge-Leg_base i n m ns e h k here in
    elim (Bool-cases m.released) [
      | inl based ↦ (leg, check_edges_base (suc i) m ns es (omega arith) based s (ground arith))
      | inr ahead ↦ (
        leg,
        check_edges_horizon (first_horizon_index (suc i) (m ∷ ns)) (suc i) m ns es (omega arith)
            ahead s (ground arith),
      )
    ]

checks_sound :
    (ns : List Node) (es : List Edge) (fh : Option ℕ)
    → is_base_start ns ≡ true
    → check_nodes none 0 true none ns ≡ passed fh
    → check_rest fh ns es ≡ passed tt
    → Starts ns es
unfolding check_nodes check_rest first_horizon_index
checks_sound [] es fh h c d = cc
checks_sound (n ∷ ns) es fh h c d =
    let (e, s) = check_nodes_base n 1 fh ns h (ground arith) in
    (h, ground arith, check_edges_base 0 n ns es (ground arith) h s (ground arith))

-- Every order that passes the checks is well formed.
pub validate-IsWellFormed :
    (order : Order) → validate_order_constraints order ≡ passed tt → IsWellFormed order
unfolding validate_order_constraints
validate-IsWellFormed order c = elim (Bool-cases (is_base_start order.nodes)) [
  | inl b ↦
      let (fh, first, second) =
        >>=-eq-passed (check_nodes none 0 true none order.nodes)
          (λ fh. check_rest fh order.nodes order.edges) (ground arith) in
      checks_sound order.nodes order.edges fh b first second
  | inr b ↦ absurd (ground arith)
]
