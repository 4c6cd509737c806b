-- ===== src/Agv/Status/Cancel.antt =====
-- Canceling the current order: `_cancelOrder`, `_areAllOrderActionsCanceled` and
-- `_onOrderActionsCanceled` in src/controller/agv-controller.ts.
use vda_5050_lib_js.Common.{
  Bool, List, Option, [], all, eq_Bool, eq_Option, eq_String, eq_ℕ, filter, find?, if◌then◌else◌,
  map, none, not, some, take_while, ◌&&◌, ◌==◌, ◌∷◌,
}
use vda_5050_lib_js.Vda.{
  Action, ActionState, Edge, Node, Order, eq_AgvId, failed, is_ended, is_waiting, running,
}
use vda_5050_lib_js.Agv.Controller.{
  ActionContext, ActionStatusChangeInfo, Controller, Outcome, cancel_action, done, emit,
  stop_traverse, ◌>>=◌,
}
use vda_5050_lib_js.Agv.Queries.{is_action_ended, is_instant_action_state}
use vda_5050_lib_js.Agv.Traversal.{edge_context, node_context, with_order}

-- Waiting actions of the order fail at once.
unfoldable pub fail_waiting : Controller → List ActionState → List ActionState
unfolding is_waiting is_instant_action_state
fail_waiting c = map λ s.
    if not (is_instant_action_state c s) && is_waiting s.action_status
    then record s { action_status = failed }
    else s

-- The first released node or edge that has the action.
unfoldable pub find_action : List Action → ActionState → Option Action
find_action actions s = find? (λ a. a.action_id == s.action_id) actions

unfoldable pub find_node_context : Order → List Node → ActionState → Option ActionContext
unfolding find_action
find_node_context order [] s = none
find_node_context order (n ∷ ns) s = elim (find_action n.actions s) [
  | none ↦ find_node_context order ns s
  | some a ↦ some (node_context order n a none)
]

unfoldable pub find_edge_context : Order → List Edge → ActionState → Option ActionContext
unfolding find_action
find_edge_context order [] s = none
find_edge_context order (e ∷ es) s = elim (find_action e.actions s) [
  | none ↦ find_edge_context order es s
  | some a ↦ some (edge_context order e a none)
]

abbrev released_nodes : Order → List Node
released_nodes order = take_while (λ n. n.released) order.nodes

abbrev released_edges : Order → List Edge
released_edges order = take_while (λ e. e.released) order.edges

unfoldable pub cancel_context : Order → ActionState → Option ActionContext
unfolding find_node_context find_edge_context
cancel_context order s = elim (find_node_context order (released_nodes order) s) [
  | none ↦ find_edge_context order (released_edges order) s
  | some context ↦ some context
]

abbrev is_to_cancel : Controller → ActionState → Bool
is_to_cancel c s = not (is_instant_action_state c s) && not (is_ended s.action_status)

unfoldable pub cancel_each : List ActionState → Controller → Outcome
unfolding cancel_context
cancel_each [] c = done c
cancel_each (s ∷ states) c =
    (with_order c λ order. done (emit (cancel_action (cancel_context order s)) c))
    >>= cancel_each states

unfoldable pub on_order_actions_canceled : Controller → Controller
on_order_actions_canceled c = emit stop_traverse c

-- The second half of `_cancelOrder`, over the action states that are to be canceled.
unfoldable pub cancel_or_stop : List ActionState → Controller → Outcome
unfolding cancel_each on_order_actions_canceled
cancel_or_stop [] c = done (on_order_actions_canceled c)
cancel_or_stop (s ∷ states) c = cancel_each (s ∷ states) c

unfoldable pub cancel_order :
    (ActionContext → ActionStatusChangeInfo → Controller → Outcome)
    → ActionContext
    → Controller
    → Outcome
unfolding fail_waiting cancel_or_stop
cancel_order update context c = do
  started ←
      update context
        (record {
          action_status = running;
          result_description = none;
          error_description = none;
          linked_state = none;
        })
        (record c {
          cancel_order_context = some context;
          current_state = record c.current_state {
            action_states = fail_waiting c c.current_state.action_states;
          };
        })
  cancel_or_stop (filter (is_to_cancel started) started.current_state.action_states) started

abbrev all_ended : Controller → List Action → Bool
all_ended c = all (is_action_ended c)

unfoldable pub are_all_order_actions_canceled : Controller → Order → Bool
unfolding is_action_ended
are_all_order_actions_canceled c order =
    all (λ n. all_ended c n.actions) (released_nodes order)
    && all (λ e. all_ended c e.actions) (released_edges order)

unfoldable pub cancel_if_all_ended : Controller → Outcome
unfolding are_all_order_actions_canceled on_order_actions_canceled
cancel_if_all_ended c = with_order c λ order.
    done (if are_all_order_actions_canceled c order then on_order_actions_canceled c else c)
