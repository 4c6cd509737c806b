-- ===== src/Agv/Controller.antt =====
-- The state of `AgvController`, its contexts and what it asks of the adapter:
-- src/controller/agv-controller.ts. A call of the adapter and a publication are recorded as
-- effects, newest first; what the adapter calls back is a later call of the controller.
use vda_5050_lib_js.Common.{Bool, List, Option, String, eq_Option, eq_String, eq_ℕ, ℕ, ◌∷◌}
use vda_5050_lib_js.Vda.{
  Action, ActionStatus, Edge, ErrorReference, Json, Node, Order, PartialState, State,
}
use vda_5050_lib_js.Common.Map.{Map}

pub data ActionScope : Type 0 where
  instant_scope node_scope edge_scope : ActionScope

pub record ActionStatusChangeInfo : Type 0 where
  pub action_status : ActionStatus
  pub result_description : Option String
  pub error_description : Option String
  pub linked_state : Option PartialState

-- A node or an edge in a context is the object of the order as it is when the context is read.
pub record ActionContext : Type 0 where
  pub action : Action
  pub scope : ActionScope
  pub stop_driving : Option Bool
  pub node : Option Node
  pub edge : Option Edge
  pub edge_start_node : Option Node
  pub edge_end_node : Option Node
  pub active_order_id : Option String

pub record TraverseEdgeContext : Type 0 where
  pub edge : Edge
  pub start_node : Option Node
  pub end_node : Option Node
  pub trajectory : Option Json

pub data Effect : Type 0 where
  publish_state : State → Effect
  publish_factsheet : ActionContext → Effect
  execute_action : ActionContext → Effect
  cancel_action : Option ActionContext → Effect
  finish_edge_action : ActionContext → Effect
  traverse_edge : TraverseEdgeContext → Effect
  stop_traverse : Effect

-- The answers of the adapter that the program is run with, and the options that are read here.
pub record Adapter : Type 0 where
  pub is_action_executable : ActionContext → List ErrorReference
  pub is_route_traversable : List Node → List Edge → List ErrorReference
  pub is_node_within_deviation_range : Node → List ErrorReference
  pub trajectory : Option (Edge → Option Node → Option Node → Option Json)
  pub vda_version : String
  pub final_publish_count : ℕ

-- The private fields. `next_identity` numbers the error objects that are made.
pub record Controller : Type 0 where
  pub current_order : Option Order
  pub current_state : State
  pub current_paused_node : Option Node
  pub current_instant_actions : List Action
  pub instant_actions_ended_publish_count : Map String ℕ
  pub instant_actions_errored_publish_count : Map ℕ ℕ
  pub cancel_order_context : Option ActionContext
  pub current_factsheet : Json
  pub next_identity : ℕ
  pub effects : List Effect

-- A call returns or throws, and leaves its changes in both cases. `out_of_fuel` is the model's.
pub data Outcome : Type 0 where
  done : Controller → Outcome
  thrown : Controller → Outcome
  out_of_fuel : Outcome

infixl 5 ◌>>=◌
abbrev pub ◌>>=◌ : Outcome → (Controller → Outcome) → Outcome
done c >>= f = f c
thrown c >>= f = thrown c
out_of_fuel >>= f = out_of_fuel

abbrev pub emit : Effect → Controller → Controller
emit e c = record c { effects = e ∷ c.effects }
