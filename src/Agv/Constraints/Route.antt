-- ===== src/Agv/Constraints/Route.antt =====
-- What the constraints on an order mean: a walk over base nodes and then horizon nodes.
use vda_5050_lib_js.Common.{
  ℕ, suc, ◌+◌, ◌%◌, ◌<◌, ◌≡◌, ◌≢◌, true, false, List, [], ◌∷◌, Option, none, some, arith,
  if◌then◌else◌,
}
use vda_5050_lib_js.Vda.{Order, Node, Edge}

-- An edge leads from one node to the next one. It is in the base exactly if its end node is, and
-- no base node follows on a horizon node.
pub record Leg (n : Node) (e : Edge) (m : Node) : Type 0 where
  pub edge_id : e.sequence_id ≡ n.sequence_id + 1
  pub node_id : m.sequence_id ≡ n.sequence_id + 2
  pub start : e.start_node_id ≡ n.node_id
  pub end : e.end_node_id ≡ m.node_id
  pub based : e.released ≡ m.released
  pub falls : n.released ≡ false → m.released ≡ false

abbrev pub IsRoute : Node → List Node → List Edge → Type 0
IsRoute n [] [] = Unit
IsRoute n (m ∷ ns) (e ∷ es) = Leg n e m × IsRoute m ns es
IsRoute n _ _ = ⊥

abbrev pub Starts : List Node → List Edge → Type 0
Starts [] es = ⊥
Starts (n ∷ ns) es = (n.released ≡ true) × (n.sequence_id % 2 ≡ 0) × IsRoute n ns es

-- The order starts at a base node with an even id, and its edges join its nodes one by one.
abbrev pub IsWellFormed : Order → Type 0
IsWellFormed order = Starts order.nodes order.edges

-- The nodes' part of a route.
abbrev pub IsSequence : Node → List Node → Type 0
IsSequence n [] = Unit
IsSequence n (m ∷ ns) =
    (m.sequence_id ≡ n.sequence_id + 2)
    × (n.released ≡ false → m.released ≡ false)
    × IsSequence m ns

pub IsRoute-IsSequence :
    (n : Node) (ns : List Node) (es : List Edge) → IsRoute n ns es → IsSequence n ns
IsRoute-IsSequence n [] [] r = tt
IsRoute-IsSequence n [] (e ∷ es) r = absurd r
IsRoute-IsSequence n (m ∷ ns) [] r = absurd r
IsRoute-IsSequence n (m ∷ ns) (e ∷ es) (l, r) = (l.node_id, l.falls, IsRoute-IsSequence m ns es r)

-- The index of the first horizon node, where the nodes are numbered from `i`.
unfoldable pub first_horizon_index : ℕ → List Node → Option ℕ
first_horizon_index i [] = none
first_horizon_index i (n ∷ ns) = if n.released then first_horizon_index (suc i) ns else some i

pub first_horizon_index-ne : (i j : ℕ) (ns : List Node) → j < i → first_horizon_index i ns ≢ some j
unfolding first_horizon_index
first_horizon_index-ne i j [] h = cc
first_horizon_index-ne i j (n ∷ ns) h = ground (arith, first_horizon_index-ne (suc i) j ns)
