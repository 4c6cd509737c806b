-- ===== src/Agv/Constraints.antt =====
-- `AgvController._validateOrderConstraints`: src/controller/agv-controller.ts.
pub mod Route
pub mod Sound
pub mod Complete
use vda_5050_lib_js.Common.{
  Bool, List, Option, String, [], eq_Option, eq_String, eq_ℕ, false, if◌then◌else◌, length, none,
  not, refl, some, suc, true, ℕ, ◌!=◌, ◌%◌, ◌&&◌, ◌+◌, ◌==◌, ◌||◌, ◌∷◌, ◌≡◌,
}
use vda_5050_lib_js.Vda.{Edge, Node, Order}

-- What a check that may throw returns.
pub data Checked {ℓ} (A : Type ℓ) : Type ℓ where
  passed : A → Checked A
  violated : (message : String) → Checked A

infixl 5 ◌>>=◌
abbrev pub ◌>>=◌ {ℓ κ} : {A : Type ℓ} {B : Type κ} → Checked A → (A → Checked B) → Checked B
passed a >>= f = f a
violated m >>= f = violated m

-- The sequence id that follows on that of the node before; the first one is even.
has_next_id : Option Node → Node → Bool
has_next_id none n = n.sequence_id % 2 == 0
has_next_id (some p) n = n.sequence_id == p.sequence_id + 2

-- The loop over the nodes from index `i` on, behind `prev`; it returns `firstHorizonIndex`.
check_nodes : Option Node → ℕ → Bool → Option ℕ → List Node → Checked (Option ℕ)
unfolding has_next_id
check_nodes prev i is_base first_horizon [] = passed first_horizon
check_nodes prev i is_base first_horizon (n ∷ ns) =
    let opens = is_base && not n.released in
    let rest =
      check_nodes (some n) (suc i) (is_base && n.released) (if opens then some i else first_horizon)
        ns in
    if not (has_next_id prev n)
    then violated "Order contains node with invalid sequenceId"
    else if not is_base && n.released
    then violated "Incorrect sequence of base-horizon nodes"
    else rest

-- One round of the loop over the edges: edge `e`, with index `i`, from node `n` to node `m`.
check_edge : Option ℕ → ℕ → Bool → Node → Edge → Node → Checked (Unit {0})
check_edge first_horizon i is_base n e m =
    if e.sequence_id != n.sequence_id + 1
    then violated "Order contains edge with invalid sequenceId"
    else if is_base && not e.released && first_horizon != some (suc i)
    then violated "Incorrect sequence of base-horizon edges"
    else if is_base && e.released && not m.released
    then violated "EndNode of last base edge is not released"
    else if not is_base && e.released
    then violated "Incorrect sequence of base-horizon edges"
    else if e.start_node_id != n.node_id || e.end_node_id != m.node_id
    then violated "An edge doesn't have proper start and/or end nodes"
    else passed tt

-- The loop over the edges, beside the nodes from the same index on.
check_edges : Option ℕ → ℕ → Bool → List Node → List Edge → Checked (Unit {0})
unfolding check_edge
check_edges first_horizon i is_base ns [] = passed tt
check_edges first_horizon i is_base (n ∷ m ∷ ns) (e ∷ es) = do
  _ ← check_edge first_horizon i is_base n e m
  check_edges first_horizon (suc i) (is_base && e.released) (m ∷ ns) es
check_edges first_horizon i is_base _ (e ∷ es) = violated "TypeError"

abbrev is_base_start : List Node → Bool
is_base_start [] = false
is_base_start (n ∷ ns) = n.released

-- What follows the loop over the nodes.
check_rest : Option ℕ → List Node → List Edge → Checked (Unit {0})
unfolding check_edges
check_rest first_horizon nodes edges =
    if length edges + 1 != length nodes
    then violated "Incompatible sequence of nodes and edges"
    else check_edges first_horizon 0 true nodes edges

unfoldable pub validate_order_constraints : Order → Checked (Unit {0})
unfolding check_nodes check_rest
validate_order_constraints order =
    if not (is_base_start order.nodes)
    then violated "Order must contain at least one base node"
    else do
      first_horizon ← check_nodes none 0 true none order.nodes
      check_rest first_horizon order.nodes order.edges

pub >>=-eq-passed {ℓ κ} :
    {A : Type ℓ} {B : Type κ} (m : Checked A) (f : A → Checked B) {b : B}
    → (m >>= f) ≡ passed b
    → (a : A) × (m ≡ passed a) × (f a ≡ passed b)
>>=-eq-passed (passed a) f h = (a, refl, h)
>>=-eq-passed (violated m) f h = cc
