-- ===== src/Agv/Orders/Accept.antt =====
-- Taking over an order: the three modes of `_acceptOrder` in src/controller/agv-controller.ts.
use vda_5050_lib_js.Common.{
  Bool, List, Option, String, [], all, any, drop, eq_Bool, eq_Option, eq_String, eq_ℕ, false,
  filter, if◌then◌else◌, none, not, some, suc, take_while, true, zero, ℕ, ◌&&◌, ◌++◌, ◌==◌, ◌∷◌,
}
use vda_5050_lib_js.Vda.{Action, ActionState, Edge, Node, Order, eq_AgvId}
use vda_5050_lib_js.Agv.Controller.{Adapter, Controller, Outcome, done, thrown}
use vda_5050_lib_js.Agv.Queries.{
  base_end, base_end_index, get_action_states, get_edge_states, get_instant_action_states,
  get_node_states, get_non_order_rejection_errors, is_action_ended,
}
use vda_5050_lib_js.Agv.Updates.{no_changes, update_state}
use vda_5050_lib_js.Agv.Traversal.{
  is_state_of_node, or_throw, process_edge, process_node, with_order,
}

-- `this._processNode(this.currentOrder.nodes[0])`.
unfoldable pub process_first_node : List Node → Controller → Outcome
unfolding process_node
process_first_node [] c = thrown c
process_first_node (n ∷ _) c = process_node n none c

-- The action states of a new or updated order, behind those of the instant actions.
abbrev fresh_action_states : Order → Controller → List ActionState
fresh_action_states order c = get_instant_action_states c ++ get_action_states order false

unfoldable pub start_order : Adapter → Order → Option String → Controller → Controller
unfolding update_state
start_order env order order_id c =
    update_state
      (record no_changes {
        order_id = order_id;
        order_update_id = some order.order_update_id;
        errors = some (get_non_order_rejection_errors false c);
        node_states = some (get_node_states order false);
        edge_states = some (get_edge_states env order);
        action_states = some (fresh_action_states order c);
      })
      true (record c { current_order = some order })

unfoldable pub accept_new : Adapter → Order → Controller → Outcome
unfolding process_first_node start_order
accept_new env order c =
    process_first_node order.nodes (start_order env order (some order.order_id) c)

-- The order id of the state stays as it is.
unfoldable pub accept_update : Adapter → Order → Controller → Outcome
unfolding process_first_node start_order
accept_update env order c = process_first_node order.nodes (start_order env order none c)

abbrev pub first_actions : List Node → List Action
first_actions [] = []
first_actions (n ∷ _) = n.actions

-- `slice(0, i === -1 ? undefined : i)` at the first that is not released.
abbrev pub base_nodes : List Node → List Node
base_nodes = take_while λ n. n.released

abbrev pub base_edges : List Edge → List Edge
base_edges = take_while λ e. e.released

-- The last base node, an object of the order, takes over the actions of the first new node.
unfoldable pub extend_at : Option ℕ → List Action → List Node → List Node
extend_at i actions [] = []
extend_at none actions (n ∷ ns) = n ∷ ns
extend_at (some zero) actions (n ∷ ns) = record n { actions = n.actions ++ actions } ∷ ns
extend_at (some (suc i)) actions (n ∷ ns) = n ∷ extend_at (some i) actions ns

unfoldable pub stitched_order : Order → Order → Order
unfolding extend_at base_end_index
stitched_order current order = record current {
  order_id = order.order_id;
  order_update_id = order.order_update_id;
  zone_set_id = order.zone_set_id;
  nodes =
      extend_at (base_end_index current.nodes) (first_actions order.nodes)
        (base_nodes current.nodes ++ drop 1 order.nodes);
  edges = base_edges current.edges ++ order.edges;
}

unfoldable pub report_stitched : Adapter → Order → Order → Controller → Controller
unfolding update_state stitched_order
report_stitched env current order c =
    update_state
      (record no_changes {
        order_id = some order.order_id;
        order_update_id = some order.order_update_id;
        errors = some (get_non_order_rejection_errors true c);
        node_states =
            some
              (filter (λ s. s.released) c.current_state.node_states ++ get_node_states order true);
        edge_states =
            some
              (filter (λ s. s.released) c.current_state.edge_states ++ get_edge_states env order);
        action_states = some (c.current_state.action_states ++ get_action_states order false);
      })
      true (record c { current_order = some (stitched_order current order) })

-- Whether the vehicle waits at the old end of the base with nothing left to do.
unfoldable pub waits_at : Controller → Node → Bool
waits_at c end =
    not (any (is_state_of_node end) c.current_state.node_states)
    && all (is_action_ended c) end.actions

-- A paused node is an object of the current order: if it is the one that is extended, it has the
-- new actions too.
abbrev pub extend_paused : Node → Node → Option Node → Option Node
extend_paused end extended none = none
extend_paused end extended (some n) =
    if n.node_id == end.node_id && n.sequence_id == end.sequence_id then some extended else some n

abbrev pub extend_paused_node : Node → Node → Controller → Controller
extend_paused_node end extended c = record c {
  current_paused_node = extend_paused end extended c.current_paused_node;
}

-- The current order is known, and the end of its base.
unfoldable pub stitch_at : Adapter → Order → Order → Node → Controller → Outcome
unfolding report_stitched waits_at process_edge
stitch_at env order current end c =
    let extended = record end { actions = end.actions ++ first_actions order.nodes } in
    let reported = report_stitched env current order (extend_paused_node end extended c) in
    if waits_at c extended then process_edge extended reported else done reported

unfoldable pub accept_stitch : Adapter → Order → Controller → Outcome
unfolding stitch_at base_end
accept_stitch env order c =
    with_order c
      λ current. or_throw c (base_end current.nodes) λ end. stitch_at env order current end c
