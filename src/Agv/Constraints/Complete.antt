-- ===== src/Agv/Constraints/Complete.antt =====
-- A well-formed order passes the checks.
use vda_5050_lib_js.Common.{
  Bool-cases, List, Option, [], arith, eq_iff, false, inl, inr, length, nat_eq_iff, none, refl,
  some, suc, true, ℕ, ◌&&◌, ◌↔◌, ◌∷◌, ◌≡◌,
}
use vda_5050_lib_js.Vda.{Edge, Node, Order}
use vda_5050_lib_js.Agv.Constraints.{
  check_edge, check_edges, check_nodes, check_rest, is_base_start, passed,
  validate_order_constraints,
}
use vda_5050_lib_js.Agv.Constraints.Route.{
  IsRoute, IsRoute-IsSequence, IsSequence, IsWellFormed, Leg, first_horizon_index, Starts,
}
use vda_5050_lib_js.Agv.Constraints.Sound.{validate-IsWellFormed}

check_nodes_horizon :
    (p : Node) (i : ℕ) (fh : Option ℕ) (ns : List Node)
    → p.released ≡ false
    → IsSequence p ns
    → check_nodes (some p) i false fh ns ≡ passed fh
unfolding check_nodes
check_nodes_horizon p i fh [] h s = refl
check_nodes_horizon p i fh (n ∷ ns) h (k, f, s) =
    ground (arith, f h, check_nodes_horizon n (suc i) fh ns (f h) s)

check_nodes_base :
    (p : Node) (i : ℕ) (ns : List Node)
    → p.released ≡ true
    → IsSequence p ns
    → check_nodes (some p) i true none ns ≡ passed (first_horizon_index i ns)
unfolding check_nodes first_horizon_index
check_nodes_base p i [] h s = refl
check_nodes_base p i (n ∷ ns) h (k, f, s) =
    ground (arith, check_nodes_base n (suc i) ns, check_nodes_horizon n (suc i) (some i) ns)

check_edge_base :
    (i : ℕ) (n m : Node) (ns : List Node) (e : Edge)
    → Leg n e m
    → check_edge (first_horizon_index (suc i) (m ∷ ns)) i true n e m ≡ passed tt
unfolding check_edge first_horizon_index
check_edge_base i n m ns e l = ground (
  arith,
  eq_iff e.start_node_id n.node_id,
  eq_iff e.end_node_id m.node_id,
  nat_eq_iff (suc i) (suc i),
)

check_edge_horizon :
    (fh : Option ℕ) (i : ℕ) (n m : Node) (e : Edge)
    → m.released ≡ false
    → Leg n e m
    → check_edge fh i false n e m ≡ passed tt
unfolding check_edge
check_edge_horizon fh i n m e h l =
    ground (arith, eq_iff e.start_node_id n.node_id, eq_iff e.end_node_id m.node_id)

check_edges_horizon :
    (fh : Option ℕ) (i : ℕ) (n : Node) (ns : List Node) (es : List Edge)
    → n.released ≡ false
    → IsRoute n ns es
    → check_edges fh i false (n ∷ ns) es ≡ passed tt
unfolding check_edges
check_edges_horizon fh i n [] [] h r = refl
check_edges_horizon fh i n [] (e ∷ es) h r = absurd r
check_edges_horizon fh i n (m ∷ ns) [] h r = refl
check_edges_horizon fh i n (m ∷ ns) (e ∷ es) h (l, r) =
    rw (check_edge_horizon fh i n m e (l.falls h) l)
      (check_edges_horizon fh (suc i) m ns es (l.falls h) r)

-- The next edge, whether it lies in the base or behind it.
check_edges_next :
    (i : ℕ) (m : Node) (ns : List Node) (e : Edge) (es : List Edge)
    → e.released ≡ m.released
    → IsRoute m ns es
    → (m.released ≡ true
        → IsRoute m ns es
        → check_edges (first_horizon_index (suc (suc i)) ns) (suc i) true (m ∷ ns) es ≡ passed tt)
    → check_edges (first_horizon_index (suc i) (m ∷ ns)) (suc i) (true && e.released) (m ∷ ns) es
      ≡ passed tt
unfolding first_horizon_index
check_edges_next i m ns e es same r base = elim (Bool-cases m.released) [
  | inl based ↦ simp (same, based) (base based r)
  | inr ahead ↦ simp (same, ahead) (check_edges_horizon (some (suc i)) (suc i) m ns es ahead r)
]

check_edges_base :
    (i : ℕ) (n : Node) (ns : List Node) (es : List Edge)
    → n.released ≡ true
    → IsRoute n ns es
    → check_edges (first_horizon_index (suc i) ns) i true (n ∷ ns) es ≡ passed tt
unfolding check_edges
check_edges_base i n [] [] h r = refl
check_edges_base i n [] (e ∷ es) h r = absurd r
check_edges_base i n (m ∷ ns) [] h r = refl
check_edges_base i n (m ∷ ns) (e ∷ es) h (l, r) =
    rw (check_edge_base i n m ns e l)
      (check_edges_next i m ns e es l.based r (check_edges_base (suc i) m ns es))

IsRoute-length :
    (n : Node) (ns : List Node) (es : List Edge) → IsRoute n ns es → length es ≡ length ns
IsRoute-length n [] [] r = refl
IsRoute-length n [] (e ∷ es) r = absurd r
IsRoute-length n (m ∷ ns) [] r = absurd r
IsRoute-length n (m ∷ ns) (e ∷ es) (l, r) = omega (arith, IsRoute-length m ns es r)

checks_complete :
    (ns : List Node) (es : List Edge)
    → Starts ns es
    → (fh : Option ℕ) × (is_base_start ns ≡ true)
      × (check_nodes none 0 true none ns ≡ passed fh)
      × (check_rest fh ns es ≡ passed tt)
unfolding check_nodes check_rest
checks_complete [] es h = absurd h
checks_complete (n ∷ ns) es (h, k, r) = (
  first_horizon_index 1 ns,
  h,
  ground (arith, check_nodes_base n 1 ns h (IsRoute-IsSequence n ns es r)),
  ground (arith, check_edges_base 0 n ns es h r, IsRoute-length n ns es r),
)

-- `_validateOrderConstraints` lets an order pass exactly if it is well formed: its nodes carry
-- consecutive even sequence ids from a released one on, horizon nodes come last, and the edges
-- join neighbouring nodes, with the id between theirs and the release flag of the end node.
pub validate_iff :
    (order : Order) → (validate_order_constraints order ≡ passed tt) ↔ IsWellFormed order
unfolding validate_order_constraints
validate_iff order = (
  validate-IsWellFormed order,
  λ w. let (fh, a, b, c) = checks_complete order.nodes order.edges w in rw (a, b) c,
)
