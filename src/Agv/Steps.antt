-- ===== src/Agv/Steps.antt =====
-- Everything that changes the state of `AgvController`: inbound messages, the functions of the
-- contexts that the adapter calls, its `update…` methods, and the end of a publication. They come in
-- any order, with any arguments. src/controller/agv-controller.ts.
pub mod Same
pub mod Instants
pub mod Invariant
use vda_5050_lib_js.Common.{Bool, Option, ◌≡◌, ◌⊎◌}
use vda_5050_lib_js.Vda.{Error, Json, Node, PartialState}
use vda_5050_lib_js.Agv.Controller.{
  ActionContext, ActionStatusChangeInfo, Adapter, Controller, Outcome, TraverseEdgeContext, done,
  thrown,
}
use vda_5050_lib_js.Agv.Updates.{ErrorMode, update_errors, update_factsheet, update_partial_state}
use vda_5050_lib_js.Agv.Callbacks.{
  context_update, driving_to_next_node, factsheet_published, stopped, update_edge_traversed,
}
use vda_5050_lib_js.Agv.Callbacks.Cleanup.{state_published}
use vda_5050_lib_js.Agv.InstantActions.{InstantActionsMessage, process_instant_actions}
use vda_5050_lib_js.Agv.Orders.{OrderMessage, process_order}

-- A call leaves its changes whether it returns or throws.
abbrev pub Leaves : Outcome → Controller → Type 0
Leaves o c' = (o ≡ done c') ⊎ (o ≡ thrown c')

pub data Step (env : Adapter) (c : Controller) : Controller → Type 0 where
  order_received :
      (message : OrderMessage) (c' : Controller)
      → Leaves (process_order env message c) c'
      → Step env c c'
  instant_actions_received :
      (message : InstantActionsMessage) (c' : Controller)
      → Leaves (process_instant_actions env message c) c'
      → Step env c c'
  action_status_changed :
      (context : ActionContext) (change : ActionStatusChangeInfo) (c' : Controller)
      → Leaves (context_update env context change c) c'
      → Step env c c'
  edge_traversed :
      (context : TraverseEdgeContext) (c' : Controller)
      → Leaves (update_edge_traversed context c) c'
      → Step env c c'
  next_node_approached :
      (node : Node) (c' : Controller) → Leaves (driving_to_next_node node c) c' → Step env c c'
  traverse_stopped : (c' : Controller) → Leaves (stopped env c) c' → Step env c c'
  factsheet_sent :
      (context : ActionContext) (c' : Controller)
      → Leaves (factsheet_published env context c) c'
      → Step env c c'
  state_sent : Step env c (state_published env c)
  state_updated :
      (p : PartialState) (report_immediately : Bool)
      → Step env c (update_partial_state p report_immediately c)
  errors_updated :
      (error : Error) (mode : ErrorMode) (report_immediately : Bool) (c' : Controller)
      → Leaves (update_errors error mode report_immediately c) c'
      → Step env c c'
  factsheet_updated : (factsheet : Option Json) → Step env c (update_factsheet factsheet c)

-- The states that a controller can get into after it has been made.
pub data Reachable (env : Adapter) (start : Controller) : Controller → Type 0 where
  started : Reachable env start start
  stepped : (c c' : Controller) → Reachable env start c → Step env c c' → Reachable env start c'
