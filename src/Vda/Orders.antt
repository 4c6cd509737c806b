-- ===== src/Vda/Orders.antt =====
-- Orders and actions: src/common/vda-5050-types.ts. Sequence and update ids are natural numbers:
-- the JSON schemas of the protocol admit no others.
use vda_5050_lib_js.Common.{ℕ, Bool, true, false, String, List, Option}
use vda_5050_lib_js.Vda.Value.{Json}

pub data BlockingType : Type 0 where
  hard no_blocking soft : BlockingType

unfoldable pub is_hard : BlockingType → Bool
is_hard hard = true
is_hard _ = false

unfoldable pub is_soft : BlockingType → Bool
is_soft soft = true
is_soft _ = false

pub record Action : Type 0 where
  pub action_description : Option String
  pub action_id : String
  pub action_parameters : Option Json
  pub action_type : String
  pub blocking_type : BlockingType

-- `attributes` holds the optional fields that no code reads: corridor, direction, length, speeds,
-- heights, orientation.
pub record Edge : Type 0 where
  pub actions : List Action
  pub edge_description : Option String
  pub edge_id : String
  pub end_node_id : String
  pub released : Bool
  pub sequence_id : ℕ
  pub start_node_id : String
  pub trajectory : Option Json
  pub attributes : Json

pub record Node : Type 0 where
  pub actions : List Action
  pub node_description : Option String
  pub node_id : String
  pub node_position : Option Json
  pub released : Bool
  pub sequence_id : ℕ

pub record Header : Type 0 where
  pub header_id : ℕ
  pub manufacturer : String
  pub serial_number : String
  pub timestamp : String
  pub version : String

pub record Order : Type 0 where
  pub header : Header
  pub edges : List Edge
  pub nodes : List Node
  pub order_id : String
  pub order_update_id : ℕ
  pub zone_set_id : Option String
