-- ===== src/Agv/Callbacks.antt =====
-- What calls the controller: the adapter, by the functions of the contexts that it was handed, and
-- the client, when a publication has gone out. src/controller/agv-controller.ts.
pub mod Cleanup
pub mod Counts
pub mod Removed
pub mod Published
pub mod Forgotten
use vda_5050_lib_js.Common.{
  Bool, [], eq_Bool, eq_Option, eq_String, eq_ℕ, false, filter, if◌then◌else◌, none, some, true,
  ◌&&◌, ◌==◌,
}
use vda_5050_lib_js.Vda.{Node, eq_AgvId, finished, is_finished}
use vda_5050_lib_js.Agv.Controller.{
  ActionContext, ActionStatusChangeInfo, Adapter, Controller, Outcome, TraverseEdgeContext, done,
  instant_scope, ◌>>=◌,
}
use vda_5050_lib_js.Agv.Queries.{has_canceling_order}
use vda_5050_lib_js.Agv.Updates.{no_changes, update_state}
use vda_5050_lib_js.Agv.Traversal.{is_state_of_node, or_throw, process_node}
use vda_5050_lib_js.Agv.Status.{change_to, update_action_status}

-- `edgeTraversed`, `_updateEdgeTraversed`.
unfoldable pub update_edge_traversed : TraverseEdgeContext → Controller → Outcome
unfolding process_node
update_edge_traversed context c =
    if has_canceling_order c
    then done c
    else or_throw c context.end_node λ n. process_node n (some context.edge) c

-- `drivingToNextNode` of the context for `stopTraverse`.
unfoldable pub driving_to_next_node : Node → Controller → Outcome
unfolding update_state
driving_to_next_node next_node c = done (
    update_state
      (record no_changes {
        node_states = some (filter (is_state_of_node next_node) c.current_state.node_states);
        edge_states = some [];
      })
      true c)

-- `stopped` of that context: the cancellation ends. Without one, it throws with the states cleared.
unfoldable pub stopped : Adapter → Controller → Outcome
unfolding update_state update_action_status
stopped env c =
    let cleared =
      update_state (record no_changes { node_states = some []; edge_states = some [] }) false
        (record c { cancel_order_context = none }) in
    or_throw cleared c.cancel_order_context
      λ context. update_action_status env context (change_to finished) cleared

-- The paused node is processed when a "stopPause" has finished.
unfoldable pub resume : Controller → Outcome
unfolding process_node
resume c = elim c.current_paused_node [
  | none ↦ done c
  | some paused_node ↦
      let resumed = record c { current_paused_node = none } in
      if has_canceling_order c then done resumed else process_node paused_node none resumed
]

abbrev pub is_stop_pause : ActionContext → Bool
is_stop_pause context = elim context.scope [
  | instant_scope ↦ context.action.action_type == "stopPause"
  | _ ↦ false
]

-- `updateActionStatus` of a context, which "stopPause" wraps.
unfoldable pub context_update :
    Adapter → ActionContext → ActionStatusChangeInfo → Controller → Outcome
unfolding update_action_status resume is_finished
context_update env context change c = update_action_status env context change c >>= λ updated.
    if is_stop_pause context && is_finished change.action_status
    then resume updated
    else done updated

-- The factsheet has been published: the request for it has finished.
unfoldable pub factsheet_published : Adapter → ActionContext → Controller → Outcome
unfolding update_action_status
factsheet_published env context c =
    update_action_status env context
      (record {
        action_status = finished;
        result_description = some "Reported new factsheet";
        error_description = none;
        linked_state = none;
      })
      c
