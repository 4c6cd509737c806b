-- ===== src/Mqtt/Client/Messages.antt =====
-- What a client holds, and what it accepts as an AGV identifier and as an object of a topic:
-- `validateAgvId`, `validateTopicObject`, `_isValidVdaVersion` and `_withObjectHeader` of
-- src/common/client.ts. The client of the package mqtt takes the packets, recorded newest first.
use mathlib.Core.Option
use Prim.Native.Char.{Char, code}
use vda_5050_lib_js.Common.Map
use vda_5050_lib_js.Common.{
  Bool, List, Option, String, eq_Bool, eq_Option, eq_String, eq_ℕ, false, leb, none, not, some,
  true, ℕ, ◌&&◌, ◌==◌, ◌||◌,
}
use vda_5050_lib_js.Vda.{AgvId, Header, Json, eq_AgvId}
use vda_5050_lib_js.Common.Map.{Map}
use vda_5050_lib_js.Mqtt.Subscriptions.{SubscriptionManager}
use vda_5050_lib_js.Mqtt.Client.{Topic, factsheet, is_valid_topic_level, standard_topic}

-- An object with its header; what else it holds is not read here.
pub record TopicObject : Type 0 where
  pub header : Header
  pub content : Json

pub record Message : Type 0 where
  pub mqtt_topic : String
  pub payload : TopicObject
  pub retain : Bool

pub data Packet : Type 0 where
  publish : Message → Packet
  subscribe : (mqtt_topic : Option String) → Packet
  unsubscribe : (mqtt_topic : Option String) → Packet

pub data ConnectionState : Type 0 where
  online offline broken : ConnectionState

-- The options that are read here, the directions of the subclass, and the validators that are
-- generated from the JSON schemas.
pub record ClientOptions : Type 0 where
  pub vda_version : String
  pub validates_inbound : Bool
  pub validates_outbound : Bool
  pub direction : Topic → Bool → Bool
  pub schema : (vda_version : String) → Topic → TopicObject → Bool

-- `_extensionTopics` is a map for the directions and one for the validators, with the same topics.
-- `told_states` are the calls of the callback for changes, newest first: the state and the previous
-- one.
pub record Client (H : Type 0) : Type 0 where
  pub is_started : Bool
  pub connected : Bool
  pub connection_state : ConnectionState
  pub has_callback : Bool
  pub told_states : List (ConnectionState × ConnectionState)
  pub header_ids : Map String ℕ
  pub extension_topics : Map String (Bool × Bool)
  pub extension_validators : Map String (String → TopicObject → Bool)
  pub subscriptions : SubscriptionManager H
  pub packets : List Packet

-- `_isValidVdaVersion`.
unfoldable pub is_valid_vda_version : String → Bool
is_valid_vda_version version =
    version == "1.1.0"
    || version == "1.1"
    || version == "2.0"
    || version == "2.0.0"
    || version == "2.1"
    || version == "2.1.0"

-- One part of an AGV identifier.
abbrev pub is_valid_part : (String → Bool) → Option String → Bool → Bool
is_valid_part valid none for_subscription = for_subscription
is_valid_part valid (some s) for_subscription = not (s == "") && valid s

-- `A-Z a-z 0-9 _ . : -`
abbrev is_serial_char : Char → Bool
is_serial_char c =
    leb 65 (code c) && leb (code c) 90
    || leb 97 (code c) && leb (code c) 122
    || leb 48 (code c) && leb (code c) 57
    || code c == 95
    || code c == 46
    || code c == 58
    || code c == 45

unfoldable pub has_serial_chars : String → Bool
has_serial_chars String.[] = true
has_serial_chars (String.◌∷◌ c s) = is_serial_char c && has_serial_chars s

-- Whether `validateAgvId` returns.
unfoldable pub validate_agv_id : (manufacturer serial_number : Option String) → Bool → Bool
unfolding is_valid_topic_level has_serial_chars
validate_agv_id manufacturer serial_number for_subscription =
    is_valid_part is_valid_topic_level manufacturer for_subscription
    && is_valid_part (λ s. is_valid_topic_level s && has_serial_chars s) serial_number
        for_subscription

-- The versions that the switch of a topic knows.
unfoldable pub has_schema : Topic → String → Bool
has_schema factsheet version = version == "2.0.0" || version == "2.1.0"
has_schema _ version = version == "1.1.0" || version == "2.0.0" || version == "2.1.0"

-- The cases of the switch over topics.
abbrev pub is_valid_as :
    {H : Type 0} → ClientOptions → Client H → String → TopicObject → Option Topic → Bool
is_valid_as options c topic obj (some t) =
    has_schema t options.vda_version && options.schema options.vda_version t obj
is_valid_as options c topic obj none = elim (Map.get topic c.extension_validators) [
  | none ↦ false
  | some validator ↦ validator topic obj
]

abbrev pub is_valid_content :
    {H : Type 0} → ClientOptions → Client H → Option String → TopicObject → Bool
is_valid_content options c none obj = false
is_valid_content options c (some topic) obj = is_valid_as options c topic obj (standard_topic topic)

module _ {H : Type 0} (options : ClientOptions) where
  -- Whether `validateTopicObject` returns. An inbound topic can be undefined.
  unfoldable pub validate_topic_object : Client H → Option String → TopicObject → Bool
  unfolding has_schema Map.get
  validate_topic_object c topic obj =
      obj.header.version == options.vda_version && is_valid_content options c topic obj

-- `_withObjectHeader`: a timestamp that is given is kept.
unfoldable pub with_object_header :
    ClientOptions → (now : String) → AgvId → Option String → Json → (header_id : ℕ) → TopicObject
with_object_header options now subject timestamp content header_id = record {
  header = record {
    header_id = header_id;
    manufacturer = subject.manufacturer;
    serial_number = subject.serial_number;
    timestamp = Option.get_or timestamp now;
    version = options.vda_version;
  };
  content = content;
}
