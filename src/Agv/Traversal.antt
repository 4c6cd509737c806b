-- ===== src/Agv/Traversal.antt =====
-- Moving over the nodes and edges of the current order: `_processNode`, `_processEdge`,
-- `_traverseEdge`, `_processNodeActions`, `_processEdgeActions` and `_finishEdgeActions` in
-- src/controller/agv-controller.ts.
pub mod Retains
pub mod Indices
pub mod Runs
use vda_5050_lib_js.Common.{
  Bool, List, Option, [], eq_Option, eq_String, eq_ℕ, false, filter, find?, get_elem?,
  if◌then◌else◌, none, not, some, true, ◌&&◌, ◌==◌, ◌∷◌,
}
use vda_5050_lib_js.Vda.{Action, Edge, EdgeState, Json, Node, NodeState, Order}
use vda_5050_lib_js.Agv.Controller.{
  ActionContext, Controller, Outcome, done, edge_scope, emit, execute_action, finish_edge_action,
  node_scope, thrown, traverse_edge, ◌>>=◌,
}
use vda_5050_lib_js.Agv.Queries.{
  get_edge_end_node, get_edge_start_node, get_trailing_edge, is_action_ended,
}
use vda_5050_lib_js.Agv.Updates.{no_changes, update_state}
use vda_5050_lib_js.Agv.Chunk.{Chunk, next_chunk, slice}

-- Reading `this.currentOrder` through a field throws where there is none.
abbrev pub with_order : Controller → (Order → Outcome) → Outcome
with_order c f = elim c.current_order [ none ↦ thrown c | some order ↦ f order ]

abbrev pub or_throw {ℓ} : {A : Type ℓ} → Controller → Option A → (A → Outcome) → Outcome
or_throw c o f = elim o [ none ↦ thrown c | some a ↦ f a ]

abbrev trajectory_of : Option EdgeState → Option Json
trajectory_of none = none
trajectory_of (some s) = s.trajectory

abbrev pub is_state_of_edge : Edge → EdgeState → Bool
is_state_of_edge e s = s.edge_id == e.edge_id && s.sequence_id == e.sequence_id

unfoldable pub traverse : Edge → Controller → Outcome
traverse edge c = with_order c λ order. done (
    emit
      (traverse_edge (record {
        edge = edge;
        start_node = get_edge_start_node order edge;
        end_node = get_edge_end_node order edge;
        trajectory = trajectory_of (find? (is_state_of_edge edge) c.current_state.edge_states);
      }))
      c)

abbrev pub edge_context : Order → Edge → Action → Option Bool → ActionContext
edge_context order edge a stop_driving = record {
  action = a;
  scope = edge_scope;
  stop_driving = stop_driving;
  node = none;
  edge = some edge;
  edge_start_node = get_edge_start_node order edge;
  edge_end_node = get_edge_end_node order edge;
  active_order_id = some order.order_id;
}

abbrev pub node_context : Order → Node → Action → Option Bool → ActionContext
node_context order node a stop_driving = record {
  action = a;
  scope = node_scope;
  stop_driving = stop_driving;
  node = some node;
  edge = none;
  edge_start_node = none;
  edge_end_node = none;
  active_order_id = some order.order_id;
}

unfoldable pub process_edge_action : Edge → Action → Bool → Controller → Outcome
process_edge_action edge a stop_driving c =
    with_order c
      λ order. done (emit (execute_action (edge_context order edge a (some stop_driving))) c)

unfoldable pub process_node_action : Node → Action → Bool → Controller → Outcome
process_node_action node a stop_driving c =
    with_order c
      λ order. done (emit (execute_action (node_context order node a (some stop_driving))) c)

-- `for (…) this._process…Action(…)`.
unfoldable pub process_each : (Action → Controller → Outcome) → List Action → Controller → Outcome
process_each process [] c = done c
process_each process (a ∷ actions) c = process a c >>= process_each process actions

-- The branches that follow on the choice of a chunk; `otherwise` is run if no action is left.
unfoldable pub process_chunk :
    (Action → Bool → Controller → Outcome)
    → (Controller → Outcome)
    → Chunk
    → List Action
    → Controller
    → Outcome
unfolding process_each
process_chunk process otherwise k actions c =
    if k.stop_index == k.start
    then elim k.hard_index [
      | none ↦ otherwise c
      | some i ↦ or_throw c (get_elem? actions i) λ a. process a true c
    ]
    else process_each (λ a. process a k.stop_driving) (slice k.start k.stop_index actions) c

unfoldable pub process_edge_actions : Edge → Option Action → Controller → Outcome
unfolding process_chunk process_edge_action traverse next_chunk
process_edge_actions edge after =
    process_chunk (process_edge_action edge) (traverse edge) (next_chunk after edge.actions)
      edge.actions

abbrev pub process_if_released : Option Edge → Controller → Outcome
process_if_released none c = done c
process_if_released (some edge) c =
    if edge.released then process_edge_actions edge none c else done c

unfoldable pub process_edge : Node → Controller → Outcome
unfolding process_edge_actions
process_edge node c = with_order c λ order. process_if_released (get_trailing_edge order node) c

unfoldable pub process_node_actions : Node → Option Action → Controller → Outcome
unfolding process_chunk process_node_action process_edge next_chunk
process_node_actions node after =
    process_chunk (process_node_action node) (process_edge node) (next_chunk after node.actions)
      node.actions

unfoldable pub finish_edge_action_of : Edge → Action → Controller → Outcome
unfolding is_action_ended
finish_edge_action_of edge a c =
    if is_action_ended c a
    then done c
    else with_order c λ order. done (emit (finish_edge_action (edge_context order edge a none)) c)

unfoldable pub finish_edge_actions : Edge → Controller → Outcome
unfolding process_each finish_edge_action_of
finish_edge_actions edge = process_each (finish_edge_action_of edge) edge.actions

abbrev pub is_state_of_node : Node → NodeState → Bool
is_state_of_node n s = s.node_id == n.node_id && s.sequence_id == n.sequence_id

abbrev pub finish_traversed : Option Edge → Controller → Outcome
finish_traversed none c = done c
finish_traversed (some edge) c = finish_edge_actions edge c

abbrev edge_states_behind : Option Edge → List EdgeState → Option (List EdgeState)
edge_states_behind none states = none
edge_states_behind (some edge) states = some (filter (λ s. not (is_state_of_edge edge s)) states)

abbrev pub is_true : Option Bool → Bool
is_true none = false
is_true (some b) = b

-- The report that a node has been reached, by an edge if there is one.
unfoldable pub report_node : Node → Option Edge → Controller → Controller
unfolding update_state
report_node node traversed_edge c =
    update_state
      (record no_changes {
        node_states =
            some (filter (λ s. not (is_state_of_node node s)) c.current_state.node_states);
        edge_states = edge_states_behind traversed_edge c.current_state.edge_states;
        last_node_id = some node.node_id;
        last_node_sequence_id = some node.sequence_id;
      })
      true c

unfoldable pub process_node : Node → Option Edge → Controller → Outcome
unfolding finish_edge_actions report_node process_node_actions
process_node node traversed_edge c =
    if not node.released
    then done c
    else if is_true c.current_state.paused
    then done (record c { current_paused_node = some node })
    else do
      ended ← finish_traversed traversed_edge c
      process_node_actions node none (report_node node traversed_edge ended)
