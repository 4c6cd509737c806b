-- ===== src/Agv/Orders/Reject.antt =====
-- Refusing an order: `_rejectOrder`, `_checkOrderActionsExecutable` in
-- src/controller/agv-controller.ts.
use vda_5050_lib_js.Common.{
  List, Option, [], flat_map, if◌then◌else◌, map, none, some, suc, true, ℕ, ◌++◌, ◌∷◌,
}
use vda_5050_lib_js.Vda.{Error, ErrorReference, Order}
use vda_5050_lib_js.Agv.Controller.{ActionContext, Adapter, Controller}
use vda_5050_lib_js.Agv.Queries.{is_nonempty}
use vda_5050_lib_js.Agv.Updates.{no_changes, update_state}
use vda_5050_lib_js.Agv.Traversal.{edge_context, node_context}
use vda_5050_lib_js.Agv.Faults.{ref}

unfoldable pub reject_order : (ℕ → Error) → Controller → Controller
unfolding update_state
reject_order make c =
    update_state
      (record no_changes { errors = some (c.current_state.errors ++ make c.next_identity ∷ []) })
      true (record c { next_identity = suc c.next_identity })

abbrev refused_refs : ActionContext → List ErrorReference → List ErrorReference
refused_refs context refs =
    ref "actionId" context.action.action_id ∷ ref "actionType" context.action.action_type ∷ refs

-- The references of the first action in these contexts that the adapter cannot execute.
unfoldable pub first_refused : Adapter → List ActionContext → Option (List ErrorReference)
first_refused env [] = none
first_refused env (context ∷ contexts) =
    let refs = env.is_action_executable context in
    let rest = first_refused env contexts in
    if is_nonempty refs then some (refused_refs context refs) else rest

-- All actions of the order in the order of the two loops.
abbrev pub action_contexts : Order → List ActionContext
action_contexts order =
    flat_map (λ n. map (λ a. node_context order n a none) n.actions) order.nodes
    ++ flat_map (λ e. map (λ a. edge_context order e a none) e.actions) order.edges

unfoldable pub action_refusal : Adapter → Order → Option (List ErrorReference)
unfolding first_refused
action_refusal env order = first_refused env (action_contexts order)
