-- ===== src/Master/Orders.antt =====
-- The events of an order: `_dispatchOrderState` of src/controller/master-controller.ts.
pub mod News
pub mod Actions
use vda_5050_lib_js.Common.Map
use vda_5050_lib_js.Common.{
  Bool, List, Option, String, [], any, eq_Bool, eq_Option, eq_String, eq_ℕ, false, if◌then◌else◌,
  none, some, true, ℕ, ◌&&◌, ◌==◌, ◌∷◌,
}
use vda_5050_lib_js.Vda.{
  ActionState, ActionStatus, Error, State, eq_AgvId, failed, finished, initializing, is_failed,
  running, waiting,
}
use vda_5050_lib_js.Common.Map.{Map}
use vda_5050_lib_js.Master.Controller.{
  EdgeObject, Environment, MasterController, NodeObject, OrderObject, OrderStateCache, Outcome,
  action_state_changed, change, done, emit, emit_if, node_traversed, order_processed, state_update,
  thrown, ◌>>=◌,
}
use vda_5050_lib_js.Master.Queries.{
  Progress, get_action_error, get_edge_end_node, get_next_edge, get_node, has_ids,
  is_order_canceling, is_order_processed, processed, processed_active, unprocessed,
}
use vda_5050_lib_js.Master.Caches.{remove_order_state_cache}
use vda_5050_lib_js.Master.Edges.{process_edge_events}
use vda_5050_lib_js.Master.Stitching.{stitch_to_last}

abbrev pub keep_action_state : String → ActionState → OrderStateCache → OrderStateCache
keep_action_state id s cache = record cache {
  last_action_states = Map.set id s cache.last_action_states;
}

abbrev pub status_number : ActionStatus → ℕ
status_number failed = 0
status_number finished = 1
status_number initializing = 2
status_number ActionStatus.paused = 3
status_number running = 4
status_number waiting = 5

abbrev pub same_status : Option ActionState → ActionStatus → Bool
same_status none status = false
same_status (some s) status = status_number s.action_status == status_number status

abbrev pub failure : Bool → ActionState → State → Option Error
failure as_instant_action s state =
    if is_failed s.action_status
    then get_action_error state.errors s.action_id as_instant_action
    else none

-- One action state: an event, if the action belongs to the order and its status is a new one.
unfoldable pub dispatch_action_state : ℕ → State → ActionState → MasterController → MasterController
unfolding Map.get Map.set get_action_error is_failed
dispatch_action_state k state s c = elim (Map.get s.action_id (c.caches k).mapped_actions) [
  | none ↦ c
  | some mapped ↦
      if same_status (Map.get s.action_id (c.caches k).last_action_states) s.action_status
      then c
      else emit_if (c.caches k).event_handler.on_action_state_changed
          (action_state_changed k s (failure false s state) mapped.action mapped.target state)
          (change k (keep_action_state s.action_id s) c)
]

unfoldable pub dispatch_action_states :
    ℕ → State → List ActionState → MasterController → MasterController
unfolding dispatch_action_state
dispatch_action_states k state [] c = c
dispatch_action_states k state (s ∷ ss) c =
    dispatch_action_states k state ss (dispatch_action_state k state s c)

-- The node that has been reached since the last state. The outer `none` is a throw: an order
-- without nodes has no first one.
unfoldable pub next_node : OrderStateCache → State → Option (Option NodeObject)
unfolding get_node
next_node cache state = elim cache.last_node_traversed [
  | some last ↦ some (
      if has_ids state.last_node_id state.last_node_sequence_id last
      then none
      else get_node cache.combined_order state.last_node_id state.last_node_sequence_id)
  | none ↦ elim cache.combined_order.nodes [
    | [] ↦ none
    | first ∷ _ ↦ some (
        if any (λ s. s.node_id == first.node.node_id && s.sequence_id == first.node.sequence_id)
          state.node_states
        then none
        else some first)
  ]
]

abbrev pub reach_node : NodeObject → OrderStateCache → OrderStateCache
reach_node n cache = record cache { last_node_traversed = some n }

abbrev pub end_node : OrderObject → Option EdgeObject → Option NodeObject
end_node order none = none
end_node order (some e) = get_edge_end_node order e

unfoldable pub node_is_reached :
    Environment → ℕ → NodeObject → State → MasterController → MasterController
unfolding get_next_edge get_edge_end_node process_edge_events
node_is_reached env k n state c =
    let order = (c.caches k).combined_order in
    process_edge_events env k n state (
      emit_if (c.caches k).event_handler.on_node_traversed
        (node_traversed k n (get_next_edge order n) (end_node order (get_next_edge order n)) state)
        (change k (reach_node n) c))

abbrev pub is_finished_status : ActionStatus → Bool
is_finished_status finished = true
is_finished_status _ = false

abbrev pub set_invoked : OrderStateCache → OrderStateCache
set_invoked cache = record cache { is_order_processed_handler_invoked = true }

-- The cache of an order that is no longer active is removed.
unfoldable pub order_is_processed : ℕ → Bool → State → MasterController → MasterController
unfolding is_order_canceling remove_order_state_cache
order_is_processed k is_active state c =
    emit
      (order_processed k none (is_order_canceling (c.caches k).agv_id state is_finished_status c)
        is_active state)
      (change k set_invoked (if is_active then c else remove_order_state_cache k true c))

abbrev pub report_update : ℕ → State → MasterController → MasterController
report_update k state c =
    emit_if (c.caches k).event_handler.on_state_update (state_update k state) c

-- Completion is told once.
abbrev pub conclude_active : Bool → ℕ → State → MasterController → MasterController
conclude_active is_active k state c =
    if (c.caches k).is_order_processed_handler_invoked
    then report_update k state c
    else order_is_processed k is_active state c

abbrev pub conclude_as : Progress → ℕ → State → MasterController → MasterController
conclude_as unprocessed k state c = report_update k state c
conclude_as processed k state c = conclude_active false k state c
conclude_as processed_active k state c = conclude_active true k state c

unfoldable pub conclude : ℕ → State → MasterController → MasterController
unfolding is_order_processed order_is_processed
conclude k state c = conclude_as (is_order_processed (c.caches k) state) k state c

abbrev pub trailing_edge_events : Environment → ℕ → State → MasterController → MasterController
trailing_edge_events env k state c = elim (c.caches k).last_node_traversed [
  | none ↦ c
  | some node ↦ process_edge_events env k node state c
]

abbrev pub reach : Environment → ℕ → State → MasterController → Option (Option NodeObject) → Outcome
reach env k state c none = thrown c
reach env k state c (some none) = done (conclude k state c)
reach env k state c (some (some n)) = done (conclude k state (node_is_reached env k n state c))

abbrev pub after_actions : Environment → ℕ → State → MasterController → Outcome
after_actions env k state c = reach env k state c (next_node (c.caches k) state)

unfoldable pub dispatch_order_state : Environment → State → ℕ → MasterController → Outcome
unfolding stitch_to_last dispatch_action_states process_edge_events next_node node_is_reached
    conclude
dispatch_order_state env state k c = stitch_to_last k c >>= λ stitched.
    after_actions env k state (
      trailing_edge_events env k state
        (dispatch_action_states k state state.action_states stitched))
