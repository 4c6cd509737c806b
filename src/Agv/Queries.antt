-- ===== src/Agv/Queries.antt =====
-- What the controller reads off its state and an order: `hasActiveOrder`, `_getNodeStates` and
-- the like in src/controller/agv-controller.ts.
use vda_5050_lib_js.Common.Map
use vda_5050_lib_js.Common.{
  Bool, List, Option, [], any, drop, eq_Option, eq_String, eq_ℕ, false, filter, find?, find_index?,
  flat_map, get_elem?, is_some, length, map, none, not, some, suc, true, zero, ℕ, ◌&&◌, ◌++◌, ◌+◌,
  ◌==◌, ◌||◌, ◌∷◌,
}
use vda_5050_lib_js.Vda.{
  Action, ActionState, Edge, EdgeState, Error, ErrorReference, Json, Node, NodeState, Order,
  is_ended, waiting,
}
use vda_5050_lib_js.Agv.Controller.{Adapter, Controller}

unfoldable pub is_instant_action_state : Controller → ActionState → Bool
is_instant_action_state c s = Map.has s.action_id c.instant_actions_ended_publish_count

abbrev pub is_nonempty {ℓ} : {A : Type ℓ} → List A → Bool
is_nonempty [] = false
is_nonempty (x ∷ xs) = true

unfoldable pub has_active_order : Controller → Bool
unfolding is_instant_action_state is_ended
has_active_order c =
    is_nonempty c.current_state.node_states
    || is_nonempty c.current_state.edge_states
    || any (λ s. not (is_instant_action_state c s) && not (is_ended s.action_status))
        c.current_state.action_states

unfoldable pub has_canceling_order : Controller → Bool
has_canceling_order c = is_some c.cancel_order_context

unfoldable pub get_edge_start_node : Order → Edge → Option Node
get_edge_start_node order edge =
    find? (λ n. n.node_id == edge.start_node_id && n.sequence_id + 1 == edge.sequence_id)
      order.nodes

unfoldable pub get_edge_end_node : Order → Edge → Option Node
get_edge_end_node order edge =
    find? (λ n. n.node_id == edge.end_node_id && n.sequence_id == edge.sequence_id + 1) order.nodes

unfoldable pub get_trailing_edge : Order → Node → Option Edge
get_trailing_edge order node =
    find? (λ e. e.start_node_id == node.node_id && e.sequence_id == node.sequence_id + 1)
      order.edges

abbrev state_ended : Option ActionState → Bool
state_ended none = false
state_ended (some s) = is_ended s.action_status

abbrev pub has_action_id : Action → ActionState → Bool
has_action_id a s = s.action_id == a.action_id

unfoldable pub is_action_ended : Controller → Action → Bool
unfolding is_ended
is_action_ended c a = state_ended (find? (has_action_id a) c.current_state.action_states)

abbrev nodes_from : Bool → List Node → List Node
nodes_from true nodes = drop 1 nodes
nodes_from false nodes = nodes

abbrev node_state : Node → NodeState
node_state n = record {
  node_description = n.node_description;
  node_id = n.node_id;
  node_position = n.node_position;
  released = n.released;
  sequence_id = n.sequence_id;
}

unfoldable pub get_node_states : Order → Bool → List NodeState
get_node_states order exclude_first_node =
    map node_state (nodes_from exclude_first_node order.nodes)

abbrev edge_trajectory :
    Option (Edge → Option Node → Option Node → Option Json) → Order → Edge → Option Json
edge_trajectory none order e = e.trajectory
edge_trajectory (some trajectory) order e =
    trajectory e (get_edge_start_node order e) (get_edge_end_node order e)

abbrev edge_state : Adapter → Order → Edge → EdgeState
edge_state env order e = record {
  edge_description = e.edge_description;
  edge_id = e.edge_id;
  released = e.released;
  sequence_id = e.sequence_id;
  trajectory = edge_trajectory env.trajectory order e;
}

unfoldable pub get_edge_states : Adapter → Order → List EdgeState
get_edge_states env order = map (edge_state env order) order.edges

abbrev waiting_state : Action → ActionState
waiting_state a = record {
  action_description = a.action_description;
  action_id = a.action_id;
  action_status = waiting;
  action_type = some a.action_type;
  result_description = none;
}

unfoldable pub get_action_states : Order → Bool → List ActionState
get_action_states order exclude_first_node =
    flat_map (λ n. map waiting_state n.actions)
      (filter (λ n. n.released) (nodes_from exclude_first_node order.nodes))
    ++ flat_map (λ e. map waiting_state e.actions) (filter (λ e. e.released) order.edges)

unfoldable pub get_instant_action_states : Controller → List ActionState
unfolding is_instant_action_state
get_instant_action_states c = filter (is_instant_action_state c) c.current_state.action_states

abbrev refers_to_action : Option (List ErrorReference) → Bool
refers_to_action none = false
refers_to_action (some refs) = any (λ r. r.reference_key == "actionId") refs

-- Errors are keys of the count by identity.
unfoldable pub get_non_order_rejection_errors : Bool → Controller → List Error
get_non_order_rejection_errors should_keep_order_action_errors c =
    filter
      (λ e.
        Map.has e.identity c.instant_actions_errored_publish_count
        || should_keep_order_action_errors && refers_to_action e.error_references)
      c.current_state.errors

-- The node at the end of the base: that before the first horizon node, or the last one. `none`
-- stands for the `undefined` of an index out of range.
unfoldable pub base_end_index : List Node → Option ℕ
base_end_index nodes = elim (find_index? (λ n. not n.released) nodes) [
  | none ↦ elim nodes [ [] ↦ none | n ∷ ns ↦ some (length ns) ]
  | some zero ↦ none
  | some (suc i) ↦ some i
]

abbrev pub element {ℓ} : {A : Type ℓ} → List A → Option ℕ → Option A
element xs none = none
element xs (some i) = get_elem? xs i

unfoldable pub base_end : List Node → Option Node
unfolding base_end_index
base_end nodes = element nodes (base_end_index nodes)
