-- ===== src/Agv/Orders/Stitched.antt =====
-- The order that results from stitching an update to the current one.
use vda_5050_lib_js.Common.{
  List, Option-cases, [], arith, drop, eq_iff, inl, inr, refl, some, sym, true, ◌++◌, ◌∙◌, ◌∷◌, ◌≡◌,
}
use vda_5050_lib_js.Vda.{Edge, Node, Order}
use vda_5050_lib_js.Agv.Controller.{Controller}
use vda_5050_lib_js.Agv.Queries.{base_end, base_end_index}
use vda_5050_lib_js.Agv.Constraints.Route.{IsWellFormed, Starts}
use vda_5050_lib_js.Agv.Orders.{is_order_base_stitching}
use vda_5050_lib_js.Agv.Orders.Accept.{
  base_edges, base_nodes, extend_at, first_actions, stitched_order,
}
use vda_5050_lib_js.Agv.Orders.Bases.{
  Routes-Starts, base_end_index_lem, base_end_lem, stitched_route,
}

abbrev stitched_nodes : List Node → List Node → List Node
stitched_nodes ns ms = extend_at (base_end_index ns) (first_actions ms) (base_nodes ns ++ drop 1 ms)

stitched-Starts :
    (ns ms : List Node) (es fs : List Edge) (end : Node)
    → Starts ns es
    → Starts ms fs
    → base_end ns ≡ some end
    → (n : Node) (rest : List Node) → ms ≡ n ∷ rest
    → end.node_id ≡ n.node_id
    → end.sequence_id ≡ n.sequence_id
    → Starts (stitched_nodes ns ms) (base_edges es ++ fs)
stitched-Starts [] ms es fs end a b e n rest m i s = absurd a
stitched-Starts (k ∷ ns) [] es fs end a b e n rest m i s = absurd b
stitched-Starts (k ∷ ns) (m₀ ∷ ms) es fs end (h, x, r) (h', y, q) e n rest m i s =
    Routes-Starts k (stitched_nodes (k ∷ ns) (m₀ ∷ ms)) (base_edges es ++ fs) h x (
      simp (base_end_index_lem k ns h, h)
        (stitched_route m₀ ms fs m₀.actions k ns es end h r (sym (base_end_lem k ns h) ∙ e)
          (ground arith) (ground arith) h' q))

-- Where the orders fit together.
abbrev pub FitsAt : Order → List Node → Type 0
FitsAt current ms =
    (end : Node) × (n : Node) × (rest : List Node) × (base_end current.nodes ≡ some end)
    × (ms ≡ n ∷ rest)
    × (end.node_id ≡ n.node_id)
    × (end.sequence_id ≡ n.sequence_id)

fits_at :
    (c : Controller) (current order : Order) (ms : List Node)
    → order.nodes ≡ ms
    → c.current_order ≡ some current
    → is_order_base_stitching c order ≡ some true
    → FitsAt current ms
unfolding is_order_base_stitching
fits_at c current order [] e here h = absurd (ground arith)
fits_at c current order (n ∷ rest) e here h = elim (Option-cases (base_end current.nodes)) [
  | inl missing ↦ absurd (ground arith)
  | inr (end, found) ↦ (
    end,
    n,
    rest,
    found,
    refl,
    ground (arith, eq_iff end.node_id n.node_id),
    ground (arith, eq_iff end.node_id n.node_id),
  )
]

pub stitching-FitsAt :
    (c : Controller) (current order : Order)
    → c.current_order ≡ some current
    → is_order_base_stitching c order ≡ some true
    → FitsAt current order.nodes
stitching-FitsAt c current order = fits_at c current order order.nodes refl

-- Stitching a well-formed order to the base of a well-formed one gives a well-formed order.
pub stitched_order-IsWellFormed :
    (c : Controller) (current order : Order)
    → c.current_order ≡ some current
    → is_order_base_stitching c order ≡ some true
    → IsWellFormed current
    → IsWellFormed order
    → IsWellFormed (stitched_order current order)
unfolding stitched_order
stitched_order-IsWellFormed c current order here stitching w v =
    let (end, n, rest, e, m, i, s) = stitching-FitsAt c current order here stitching in
    stitched-Starts current.nodes order.nodes current.edges order.edges end w v e n rest m i s
