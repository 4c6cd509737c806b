-- ===== src/Master/Examples.antt =====
-- Tests of the master controller, and the theorems about it at concrete orders and states.
pub mod Refusals
pub mod Told
pub mod Stitched
use mathlib.Core.Option
use vda_5050_lib_js.Common.Map
use vda_5050_lib_js.Mqtt.AgvIdMap
use vda_5050_lib_js.Agv.ErrorType
use vda_5050_lib_js.Common.{
  Bool, List, Option, String, [], arith, false, none, refl, some, true, ℕ, ◌<◌, ◌∷◌, ◌≡◌, ◌≤◌, ◌⊎◌,
}
use vda_5050_lib_js.Vda.{
  ActionState, ActionStatus, AgvId, Node, NodeState, State, is_ended, is_failed, running,
}
use vda_5050_lib_js.Agv.Examples.{idle_state, lift, place, way}
use vda_5050_lib_js.Master.Controller.{
  EdgeObject, Environment, Event, MasterController, NodeObject, OrderEventHandler, OrderObject,
  OrderStateCache, Outcome, action_state_changed, done, node_traversed, on_node, out_of_fuel,
  publish_order, state_update, thrown,
}
use vda_5050_lib_js.Master.Caches.{
  assign_order, get_last_active_order_state_cache, get_order_state_cache,
}
use vda_5050_lib_js.Master.Dispatch.{dispatch_state}
use vda_5050_lib_js.Master.Caches.Active.{Answers, get_last_active-ends}
use vda_5050_lib_js.Master.Caches.Assignment.{IsAssigned, assign_order-IsAssigned}
use vda_5050_lib_js.Master.Consistent.{IsConsistent, completions}
use vda_5050_lib_js.Master.Consistent.Steps.{
  LeftBy, Reachable, Reachable-IsConsistent, Reachable-dispatches, assigns, completed_once,
  new_controller, start, then,
}

abbrev pub agv : AgvId
agv = record { manufacturer = "acme"; serial_number = "001" }

abbrev pub env : Environment
env = record { vda_version = "2.0.0"; same_number = λ _ _. true }

abbrev pub all_handlers : OrderEventHandler
all_handlers = record {
  on_node_traversed = true;
  on_edge_traversing = true;
  on_edge_traversed = true;
  on_action_state_changed = true;
  on_state_update = true;
}

abbrev pub node_object : ℕ → Node → NodeObject
node_object i n = record { identity = i; node = n }

abbrev pub first_edge : EdgeObject
first_edge = record { identity = 0; edge = way "e1" 1 "n1" "n2" true }

-- The trip from n1, where the load is lifted, to n2, with the horizon n3.
abbrev pub trip_object : OrderObject
trip_object = record {
  nodes =
      node_object 0 (place "n1" 0 true (lift ∷ []))
      ∷ node_object 1 (place "n2" 2 true [])
      ∷ node_object 2 (place "n3" 4 false [])
      ∷ [];
  edges = first_edge ∷ record { identity = 1; edge = way "e2" 3 "n2" "n3" false } ∷ [];
  order_id = "o1";
  order_update_id = 0;
  zone_set_id = none;
}

-- What fills the store at first.
abbrev pub blank : ℕ → OrderStateCache
blank _ = record {
  agv_id = agv;
  event_handler = all_handlers;
  order = trip_object;
  is_order_processed_handler_invoked = false;
  last_cache = none;
  combined_order = trip_object;
  last_node_traversed = none;
  last_edge_state_changes = none;
  edge_state_change_invocations = 0;
  last_edge_processed = none;
  last_action_states = [];
  mapped_actions = [];
}

abbrev pub new : MasterController
new = new_controller blank

abbrev pub with_trip : MasterController
with_trip = assign_order agv trip_object all_handlers new

pub trip_reached : Reachable env blank with_trip
trip_reached = then new with_trip start (assigns new agv trip_object all_handlers)

pub trip-IsConsistent : IsConsistent with_trip
trip-IsConsistent = Reachable-IsConsistent env blank with_trip trip_reached

-- The report of a vehicle on the trip, which lifts.
abbrev pub lifting : ActionStatus → ActionState
lifting status = record {
  action_description = none;
  action_id = "a1";
  action_status = status;
  action_type = some "lift";
  result_description = none;
}

abbrev node_state : String → ℕ → Bool → NodeState
node_state id sequence_id released = record {
  node_description = none;
  node_id = id;
  node_position = none;
  released = released;
  sequence_id = sequence_id;
}

abbrev pub at_n1 : ActionStatus → State
at_n1 status = record idle_state {
  order_id = "o1";
  last_node_id = "n1";
  action_states = lifting status ∷ [];
  node_states = node_state "n2" 2 true ∷ node_state "n3" 4 false ∷ [];
  edge_states =
      record {
        edge_description = none;
        edge_id = "e1";
        released = true;
        sequence_id = 1;
        trajectory = none;
      }
      ∷ [];
}

abbrev handled : Outcome → List Event
handled (done c) = c.events
handled (thrown c) = []
handled out_of_fuel = []

-- Reaching n1 is told, with the action that starts there, and the state.
first_state :
    handled (dispatch_state env (at_n1 running) agv with_trip)
    ≡ state_update 0 (at_n1 running)
      ∷ node_traversed 0
          (node_object 0 (place "n1" 0 true (lift ∷ [])))
          (some first_edge)
          (some (node_object 1 (place "n2" 2 true [])))
          (at_n1 running)
      ∷ action_state_changed 0
          (lifting running)
          none
          lift
          (on_node (node_object 0 (place "n1" 0 true (lift ∷ []))))
          (at_n1 running)
      ∷ publish_order agv trip_object
      ∷ []
unfolding dispatch_state assign_order is_ended is_failed
first_state = refl

Reachable-IsConsistent_example : IsConsistent with_trip
Reachable-IsConsistent_example = Reachable-IsConsistent env blank with_trip trip_reached

Reachable-dispatches_example :
    (d : MasterController) × LeftBy (dispatch_state env (at_n1 running) agv with_trip) d
    × IsConsistent d
Reachable-dispatches_example =
    Reachable-dispatches env blank with_trip (at_n1 running) agv trip_reached

completed_once_example : completions 0 with_trip.events ≤ 1
completed_once_example = completed_once env blank with_trip 0 trip_reached

pub trip_found : get_order_state_cache agv "o1" 0 with_trip ≡ some 0
unfolding get_order_state_cache assign_order
trip_found = refl

not_in_use : get_order_state_cache agv "o1" 0 new ≡ none
unfolding get_order_state_cache
not_in_use = refl

start-IsConsistent : IsConsistent new
start-IsConsistent = Reachable-IsConsistent env blank new start

assign_order-IsAssigned_example :
    ((k : ℕ) × (get_order_state_cache agv "o1" 0 new ≡ some k) × (with_trip ≡ new))
    ⊎ ((get_order_state_cache agv "o1" 0 new ≡ none)
        × IsAssigned agv trip_object all_handlers new with_trip)
assign_order-IsAssigned_example =
    assign_order-IsAssigned agv trip_object all_handlers new start-IsConsistent

one_made : 0 < with_trip.next_cache
unfolding assign_order
one_made = omega arith

-- An order that is stitched to the trip.
abbrev with_extension : MasterController
with_extension =
    assign_order agv (record trip_object { order_update_id = 1 }) all_handlers with_trip

get_last_active-ends_example :
    (r : Option ℕ) × (get_last_active_order_state_cache 0 0 with_trip ≡ some r)
    × Answers with_trip (with_trip.caches 0).agv_id 0 r
get_last_active-ends_example = get_last_active-ends with_trip 0 0 trip-IsConsistent one_made
