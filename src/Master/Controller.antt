-- ===== src/Master/Controller.antt =====
-- The state of `MasterController`, its caches, and what it calls: src/controller/
-- master-controller.ts. A call of an event handler and a publication are recorded as events,
-- newest first; what a handler calls back is a later call of the controller.
use mathlib.Core.Option
use vda_5050_lib_js.Common.Map
use vda_5050_lib_js.Common.{
  Bool, List, Option, String, eq_Option, eq_String, eq_ℕ, if◌then◌else◌, ℕ, ◌==◌, ◌∷◌,
}
use vda_5050_lib_js.Vda.{
  Action, ActionState, AgvId, Edge, Error, Json, Node, OperatingMode, SafetyStatus, State,
}
use vda_5050_lib_js.Common.Map.{Map}
use vda_5050_lib_js.Mqtt.AgvIdMap.{AgvIdMap}

-- Nodes and edges are compared by reference, so each carries the number of its object. The actions
-- of a node are assigned to when orders are stitched: see `node_actions`.
pub record NodeObject : Type 0 where
  pub identity : ℕ
  pub node : Node

pub record EdgeObject : Type 0 where
  pub identity : ℕ
  pub edge : Edge

-- `Headerless<Order>`.
pub record OrderObject : Type 0 where
  pub nodes : List NodeObject
  pub edges : List EdgeObject
  pub order_id : String
  pub order_update_id : ℕ
  pub zone_set_id : Option String

-- Which of the optional handlers are defined.
pub record OrderEventHandler : Type 0 where
  pub on_node_traversed : Bool
  pub on_edge_traversing : Bool
  pub on_edge_traversed : Bool
  pub on_action_state_changed : Bool
  pub on_state_update : Bool

pub data Target : Type 0 where
  on_node : NodeObject → Target
  on_edge : EdgeObject → Target

pub record MappedAction : Type 0 where
  pub action : Action
  pub target : Target

-- The values that were reported last while an edge is traversed: every key is there.
pub record EdgeStatus : Type 0 where
  pub distance_since_last_node : Option Json
  pub driving : Bool
  pub new_base_request : Option Bool
  pub operating_mode : OperatingMode
  pub paused : Option Bool
  pub safety_state : SafetyStatus

-- The same as handed to a handler: `none` is an absent key.
pub record EdgeStateChanges : Type 0 where
  pub distance_since_last_node : Option (Option Json)
  pub driving : Option Bool
  pub new_base_request : Option (Option Bool)
  pub operating_mode : Option OperatingMode
  pub paused : Option (Option Bool)
  pub safety_state : Option SafetyStatus

-- A cache is referred to by its number. An undefined count of invocations is 0: it is set to 0
-- before it is read. A map that is shared with a previous cache is copied: the previous one is
-- then no longer in use.
pub record OrderStateCache : Type 0 where
  pub agv_id : AgvId
  pub event_handler : OrderEventHandler
  pub order : OrderObject
  pub is_order_processed_handler_invoked : Bool
  pub last_cache : Option ℕ
  pub combined_order : OrderObject
  pub last_node_traversed : Option NodeObject
  pub last_edge_state_changes : Option EdgeStatus
  pub edge_state_change_invocations : ℕ
  pub last_edge_processed : Option EdgeObject
  pub last_action_states : Map String ActionState
  pub mapped_actions : Map String MappedAction

-- `event_handler` is the number of the handler object.
pub record InstantActionStateCache : Type 0 where
  pub agv_id : AgvId
  pub action : Action
  pub event_handler : ℕ
  pub instant_actions_ref : ℕ
  pub last_action_state : Option ActionState

-- The message: `actions`, which is `instantActions` up to version 1.1.
pub record InstantActions : Type 0 where
  pub actions : Option (List Action)
  pub instant_actions : Option (List Action)

-- The context of an order's handler is the order and the AGV of its cache, and the state.
pub data Event : Type 0 where
  order_processed : (cache : ℕ) → Option Error → (by_cancelation active : Bool) → State → Event
  node_traversed : (cache : ℕ) → NodeObject → Option EdgeObject → Option NodeObject → State → Event
  edge_traversing :
      (cache : ℕ)
      → EdgeObject
      → (start end : Option NodeObject) → EdgeStateChanges
      → (invocation_count : ℕ) → State
      → Event
  edge_traversed : (cache : ℕ) → EdgeObject → (start end : Option NodeObject) → State → Event
  action_state_changed : (cache : ℕ) → ActionState → Option Error → Action → Target → State → Event
  state_update : (cache : ℕ) → State → Event
  instant_action_state_changed :
      (event_handler : ℕ) → ActionState → Option Error → Action → AgvId → State → Event
  instant_action_error : (event_handler : ℕ) → Error → Action → AgvId → State → Event
  publish_order : AgvId → OrderObject → Event
  publish_instant_actions : AgvId → InstantActions → Event

-- The caches of one AGV: by order id and order update id, and the property `lastCache`.
pub record AgvOrders : Type 0 where
  pub last_cache : Option ℕ
  pub order_ids : Map String (Map ℕ ℕ)

-- The private fields, and the objects that they refer to: `caches` holds every cache that was
-- made, and what stands there from `next_cache` on is never read; `node_actions` the actions of
-- each node that were assigned after it was made.
pub record MasterController : Type 0 where
  pub current_orders : AgvIdMap AgvOrders
  pub caches : ℕ → OrderStateCache
  pub next_cache : ℕ
  pub node_actions : Map ℕ (List Action)
  pub current_instant_actions : AgvIdMap (Map String InstantActionStateCache)
  pub current_instant_actions_ref : Option ℕ
  pub validation_errors : List (ℕ × Error)
  pub events : List Event

-- The protocol version of the client, and the comparison of the floating-point numbers that JSON
-- literals stand for.
pub record Environment : Type 0 where
  pub vda_version : String
  pub same_number : Json → Json → Bool

-- A call returns or throws, and leaves its changes in both cases. `out_of_fuel` is the model's.
pub data Outcome : Type 0 where
  done : MasterController → Outcome
  thrown : MasterController → Outcome
  out_of_fuel : Outcome

infixl 5 ◌>>=◌
abbrev pub ◌>>=◌ : Outcome → (MasterController → Outcome) → Outcome
done c >>= f = f c
thrown c >>= f = thrown c
out_of_fuel >>= f = out_of_fuel

abbrev pub emit : Event → MasterController → MasterController
emit e c = record c { events = e ∷ c.events }

-- A call of a handler that may be undefined.
abbrev pub emit_if : Bool → Event → MasterController → MasterController
emit_if defined e c = if defined then emit e c else c

abbrev pub write : ℕ → OrderStateCache → (ℕ → OrderStateCache) → ℕ → OrderStateCache
write k cache caches i = if i == k then cache else caches i

-- Assignment to fields of the cache.
abbrev pub change : ℕ → (OrderStateCache → OrderStateCache) → MasterController → MasterController
change k f c = record c { caches = write k (f (c.caches k)) c.caches }

abbrev pub actions_of : MasterController → NodeObject → List Action
actions_of c n = Option.get_or (Map.get n.identity c.node_actions) n.node.actions
