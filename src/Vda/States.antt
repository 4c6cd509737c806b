-- ===== src/Vda/States.antt =====
-- The state that an AGV reports: src/common/vda-5050-types.ts, and its partial form.
use vda_5050_lib_js.Common.{ℕ, Bool, true, false, String, List, Option}
use vda_5050_lib_js.Vda.Value.{Json}

pub data ActionStatus : Type 0 where
  failed finished initializing paused running waiting : ActionStatus

-- `=== ActionStatus.Finished || === ActionStatus.Failed`
unfoldable pub is_ended : ActionStatus → Bool
is_ended failed = true
is_ended finished = true
is_ended _ = false

unfoldable pub is_failed : ActionStatus → Bool
is_failed failed = true
is_failed _ = false

unfoldable pub is_finished : ActionStatus → Bool
is_finished finished = true
is_finished _ = false

unfoldable pub is_waiting : ActionStatus → Bool
is_waiting waiting = true
is_waiting _ = false

pub record ActionState : Type 0 where
  pub action_description : Option String
  pub action_id : String
  pub action_status : ActionStatus
  pub action_type : Option String
  pub result_description : Option String

-- `details` holds the charge, voltage, health and reach, which no code reads.
pub record BatteryState : Type 0 where
  pub charging : Bool
  pub details : Json

pub record EdgeState : Type 0 where
  pub edge_description : Option String
  pub edge_id : String
  pub released : Bool
  pub sequence_id : ℕ
  pub trajectory : Option Json

pub record NodeState : Type 0 where
  pub node_description : Option String
  pub node_id : String
  pub node_position : Option Json
  pub released : Bool
  pub sequence_id : ℕ

pub data ErrorLevel : Type 0 where
  fatal warning : ErrorLevel

pub record ErrorReference : Type 0 where
  pub reference_key : String
  pub reference_value : String

-- `identity` is the object's: errors are compared by reference in places, and copying one by
-- way of JSON makes a new object.
pub record Error : Type 0 where
  pub identity : ℕ
  pub error_description : Option String
  pub error_hint : Option String
  pub error_level : ErrorLevel
  pub error_references : Option (List ErrorReference)
  pub error_type : String

pub data OperatingMode : Type 0 where
  automatic manual semiautomatic service teachin : OperatingMode

unfoldable pub executes_orders : OperatingMode → Bool
executes_orders automatic = true
executes_orders semiautomatic = true
executes_orders _ = false

pub data EStop : Type 0 where
  autoack manual no_e_stop remote : EStop

unfoldable pub is_stopped : EStop → Bool
is_stopped no_e_stop = false
is_stopped _ = true

pub record SafetyStatus : Type 0 where
  pub e_stop : EStop
  pub field_violation : Bool

pub record State : Type 0 where
  pub timestamp : Option String
  pub action_states : List ActionState
  pub agv_position : Option Json
  pub battery_state : BatteryState
  pub distance_since_last_node : Option Json
  pub driving : Bool
  pub edge_states : List EdgeState
  pub errors : List Error
  pub information : Option Json
  pub last_node_id : String
  pub last_node_sequence_id : ℕ
  pub loads : Option Json
  pub maps : Option Json
  pub new_base_request : Option Bool
  pub node_states : List NodeState
  pub operating_mode : OperatingMode
  pub order_id : String
  pub order_update_id : ℕ
  pub paused : Option Bool
  pub safety_state : SafetyStatus
  pub velocity : Option Json
  pub zone_set_id : Option String

-- `Partial<Headerless<State>>`: `none` is an absent key.
pub record PartialState : Type 0 where
  pub timestamp : Option String
  pub action_states : Option (List ActionState)
  pub agv_position : Option Json
  pub battery_state : Option BatteryState
  pub distance_since_last_node : Option Json
  pub driving : Option Bool
  pub edge_states : Option (List EdgeState)
  pub errors : Option (List Error)
  pub information : Option Json
  pub last_node_id : Option String
  pub last_node_sequence_id : Option ℕ
  pub loads : Option Json
  pub maps : Option Json
  pub new_base_request : Option Bool
  pub node_states : Option (List NodeState)
  pub operating_mode : Option OperatingMode
  pub order_id : Option String
  pub order_update_id : Option ℕ
  pub paused : Option Bool
  pub safety_state : Option SafetyStatus
  pub velocity : Option Json
  pub zone_set_id : Option String
