-- ===== src/Agv/Examples.antt =====
-- A controller, an adapter and orders to run the model of the AGV controller on, with tests.
pub mod Orders
pub mod InstantActions
pub mod Callbacks
pub mod Steps
use vda_5050_lib_js.Common.{Bool, List, String, [], false, none, some, true, ℕ, ◌∷◌}
use vda_5050_lib_js.Vda.{
  Action, BlockingType, Edge, Header, Node, Order, State, automatic, hard, no_blocking, no_e_stop,
  null, paused,
}
use vda_5050_lib_js.Agv.Controller.{Adapter, Controller}
use vda_5050_lib_js.Agv.Queries.{get_node_states}

abbrev pub action : String → String → BlockingType → Action
action id type blocking = record {
  action_description = none;
  action_id = id;
  action_parameters = none;
  action_type = type;
  blocking_type = blocking;
}

abbrev pub place : String → ℕ → Bool → List Action → Node
place id sequence_id released actions = record {
  actions = actions;
  node_description = none;
  node_id = id;
  node_position = none;
  released = released;
  sequence_id = sequence_id;
}

abbrev pub way : String → ℕ → String → String → Bool → Edge
way id sequence_id start end released = record {
  actions = [];
  edge_description = none;
  edge_id = id;
  end_node_id = end;
  released = released;
  sequence_id = sequence_id;
  start_node_id = start;
  trajectory = none;
  attributes = null;
}

abbrev pub header : Header
header = record {
  header_id = 7;
  manufacturer = "acme";
  serial_number = "001";
  timestamp = "2024-01-01T00:00:00Z";
  version = "2.0.0";
}

abbrev pub order_of : String → ℕ → List Node → List Edge → Order
order_of id update_id nodes edges = record {
  header = header;
  edges = edges;
  nodes = nodes;
  order_id = id;
  order_update_id = update_id;
  zone_set_id = none;
}

abbrev pub lift : Action
lift = action "a1" "lift" hard

abbrev pub beep : Action
beep = action "a2" "beep" no_blocking

-- From n1, where the load is lifted, to n2; n3 is not released yet.
abbrev pub trip : Order
trip =
    order_of "o1" 0
      (place "n1" 0 true (lift ∷ []) ∷ place "n2" 2 true [] ∷ place "n3" 4 false [] ∷ [])
      (way "e1" 1 "n1" "n2" true ∷ way "e2" 3 "n2" "n3" false ∷ [])

-- The update that releases n3.
abbrev pub extension : Order
extension =
    order_of "o1" 1 (place "n2" 2 true (beep ∷ []) ∷ place "n3" 4 true [] ∷ [])
      (way "e2" 3 "n2" "n3" true ∷ [])

abbrev pub idle_state : State
idle_state = record {
  timestamp = none;
  action_states = [];
  agv_position = none;
  battery_state = record { charging = false; details = null };
  distance_since_last_node = none;
  driving = false;
  edge_states = [];
  errors = [];
  information = none;
  last_node_id = "";
  last_node_sequence_id = 0;
  loads = none;
  maps = none;
  new_base_request = none;
  node_states = [];
  operating_mode = automatic;
  order_id = "";
  order_update_id = 0;
  paused = none;
  safety_state = record { e_stop = no_e_stop; field_violation = false };
  velocity = none;
  zone_set_id = none;
}

abbrev pub idle : Controller
idle = record {
  current_order = none;
  current_state = idle_state;
  current_paused_node = none;
  current_instant_actions = [];
  instant_actions_ended_publish_count = [];
  instant_actions_errored_publish_count = [];
  cancel_order_context = none;
  current_factsheet = null;
  next_identity = 0;
  effects = [];
}

-- An adapter that can do anything.
abbrev pub able : Adapter
able = record {
  is_action_executable = λ _. [];
  is_route_traversable = λ _ _. [];
  is_node_within_deviation_range = λ _. [];
  trajectory = none;
  vda_version = "2.0.0";
  final_publish_count = 5;
}

-- On the trip, having reached n2.
abbrev pub under_way : Controller
under_way = record idle {
  current_order = some trip;
  current_state = record idle_state {
    order_id = "o1";
    last_node_id = "n2";
    last_node_sequence_id = 2;
    node_states = get_node_states trip false;
  };
}
