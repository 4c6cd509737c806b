-- ===== src/Mqtt/Client.antt =====
-- What every message of a client goes through: `_nextHeaderId`, `_validateTopic` and
-- `_isValidTopicLevel` of src/common/client.ts, and the directions of topics in
-- src/client/agv-client.ts and src/client/master-control-client.ts.
use mathlib.Core.Option
use Prim.Native.String
use Prim.Native.Char.{Char, code}
use vda_5050_lib_js.Common.Map
pub mod Directions
pub mod Messages
pub mod Traffic
pub mod Lifecycle
pub mod Published
pub mod HeaderIds
pub mod Inbound
pub mod Delivered
pub mod Examples
pub mod Versions
pub mod Options
pub mod Constructed
pub mod Reconnected
pub mod States
pub mod Changes
use vda_5050_lib_js.Common.{
  Bool, Option, String, [], eq_Option, eq_String, eq_ℕ, false, find?, if◌then◌else◌, ltb, none, not,
  set, some, true, ℕ, ◌&&◌, ◌+◌, ◌==◌, ◌||◌, ◌∷◌,
}
use vda_5050_lib_js.Common.Map.{Map}

-- The header id for the next message on the topic, and the map of the following ones.
unfoldable pub next_header_id : String → Map String ℕ → ℕ × Map String ℕ
unfolding Map.get Map.set
next_header_id topic header_ids =
    let id = Option.get_or (Map.get topic header_ids) 0 in
    (id, Map.set topic (if ltb id 4294967295 then id + 1 else 0) header_ids)

pub data Topic : Type 0 where
  connection factsheet instant_actions order state visualization : Topic

abbrev pub topic_text : Topic → String
topic_text connection = "connection"
topic_text factsheet = "factsheet"
topic_text instant_actions = "instantActions"
topic_text order = "order"
topic_text state = "state"
topic_text visualization = "visualization"

-- The topic of the enumeration that the text names: none for an extension topic.
abbrev pub standard_topic : String → Option Topic
standard_topic s =
    find? (λ t. topic_text t == s)
      (connection ∷ factsheet ∷ instant_actions ∷ order ∷ state ∷ visualization ∷ [])

-- `validateTopicDirection`: whether it returns.
unfoldable pub agv_direction : Topic → Bool → Bool
agv_direction connection as_inbound = not as_inbound
agv_direction factsheet as_inbound = not as_inbound
agv_direction instant_actions as_inbound = as_inbound
agv_direction order as_inbound = as_inbound
agv_direction state as_inbound = not as_inbound
agv_direction visualization as_inbound = not as_inbound

unfoldable pub master_control_direction : Topic → Bool → Bool
master_control_direction connection as_inbound = as_inbound
master_control_direction factsheet as_inbound = as_inbound
master_control_direction instant_actions as_inbound = not as_inbound
master_control_direction order as_inbound = not as_inbound
master_control_direction state as_inbound = as_inbound
master_control_direction visualization as_inbound = as_inbound

-- The characters U+0000, "+", "#" and "/".
abbrev pub is_illegal : Char → Bool
is_illegal c = code c == 0 || code c == 43 || code c == 35 || code c == 47

unfoldable pub is_valid_topic_level : String → Bool
is_valid_topic_level String.[] = true
is_valid_topic_level (String.◌∷◌ c s) = not (is_illegal c) && is_valid_topic_level s

-- How an extension topic has been registered: as inbound and as outbound.
abbrev may_use_extension : Option (Bool × Bool) → Bool → Bool
may_use_extension none for_subscription = false
may_use_extension (some (as_inbound, as_outbound)) for_subscription =
    if for_subscription then as_inbound else as_outbound

abbrev pub may_use : (Topic → Bool → Bool) → Option Topic → Option (Bool × Bool) → Bool → Bool
may_use direction (some t) registered for_subscription = direction t for_subscription
may_use direction none registered for_subscription = may_use_extension registered for_subscription

-- Whether `_validateTopic` returns, in a client with these directions and extension topics.
unfoldable pub validate_topic :
    (Topic → Bool → Bool) → Map String (Bool × Bool) → String → Bool → Bool
unfolding is_valid_topic_level Map.get
validate_topic direction extension_topics topic for_subscription =
    not (topic == "")
    && is_valid_topic_level topic
    && may_use direction (standard_topic topic) (Map.get topic extension_topics) for_subscription
