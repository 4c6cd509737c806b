-- ===== src/Mqtt/Client/Options.antt =====
-- The options of a client and its constructor: `_validateOptions` and the constructor of
-- src/common/client.ts.
use mathlib.Core.Option
use Prim.Native.String
use vda_5050_lib_js.Common.{
  Option, String, eq_Bool, eq_Option, eq_String, eq_ℕ, if◌then◌else◌, none, some, ◌==◌,
}
use vda_5050_lib_js.Vda.{eq_AgvId}
use vda_5050_lib_js.Mqtt.Topics.{TopicFormat, compile_mqtt_topic}
use vda_5050_lib_js.Mqtt.Client.{is_valid_topic_level}
use vda_5050_lib_js.Mqtt.Client.Messages.{Client, is_valid_vda_version}
use vda_5050_lib_js.Mqtt.Client.Lifecycle.{create}

-- The options as they are given; the type checker of the source does not see all of them.
pub record TransportOptions : Type 0 where
  pub broker_url : Option String
  pub topic_format : Option String

pub record GivenOptions : Type 0 where
  pub interface_name : Option String
  pub transport : Option TransportOptions
  pub vda_version : Option String

-- A text that is there and not empty, as a condition takes it.
abbrev pub given_text : Option String → Option String
given_text none = none
given_text (some s) = if s == "" then none else some s

abbrev pub broker_url_of : Option TransportOptions → Option String
broker_url_of none = none
broker_url_of (some t) = t.broker_url

abbrev pub validate_version : Option String → Option String
validate_version none = some "Vda Version is required"
validate_version (some version) =
    if is_valid_vda_version version
    then none
    else some (String.◌++◌ "Vda " (String.◌++◌ version " Version not supported"))

abbrev pub validate_rest : (broker_url : Option String) → Option String → Option String
validate_rest none vda_version = some "MqttTransportOption brokerUrl is missing"
validate_rest (some url) vda_version = validate_version vda_version

abbrev pub validate_fields : Option String → Option TransportOptions → Option String → Option String
validate_fields none transport vda_version = some "ClientOption interfaceName is required"
validate_fields (some name) transport vda_version =
    if is_valid_topic_level name
    then validate_rest (given_text (broker_url_of transport)) vda_version
    else some "ClientOption interfaceName is not a valid MQTT topic level"

-- The message of the error that is thrown, if one is.
unfoldable pub validate_options : GivenOptions → Option String
unfolding is_valid_topic_level is_valid_vda_version
validate_options options =
    validate_fields options.interface_name options.transport options.vda_version

abbrev pub default_mqtt_topic_format : String
default_mqtt_topic_format = "%interfaceName%/%majorVersion%/%manufacturer%/%serialNumber%/%topic%"

-- `options.transport.topicFormat || Client.DEFAULT_MQTT_TOPIC_FORMAT`.
abbrev pub topic_format_of : Option TransportOptions → String
topic_format_of none = default_mqtt_topic_format
topic_format_of (some t) = Option.get_or (given_text t.topic_format) default_mqtt_topic_format

abbrev pub format_of_fields :
    Option String → Option TransportOptions → Option String → Option TopicFormat
format_of_fields (some name) transport (some version) =
    compile_mqtt_topic (topic_format_of transport) name version
format_of_fields _ transport _ = none

abbrev pub construct_from : {H : Type 0} → Option String → Option TopicFormat → Option (Client H)
construct_from (some message) format = none
construct_from none none = none
construct_from none (some format) = some (create format)

-- The constructor; `none` is a throw.
unfoldable pub construct : {H : Type 0} → GivenOptions → Option (Client H)
unfolding validate_options compile_mqtt_topic create
construct options =
    construct_from (validate_options options)
      (format_of_fields options.interface_name options.transport options.vda_version)
