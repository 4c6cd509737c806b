-- ===== src/Mqtt/Client/Examples/Constructors.antt =====
-- Tests of the constructor of a client and of the check of its options.
use vda_5050_lib_js.Common.{[], none, refl, some, ℕ, ◌≡◌}
use vda_5050_lib_js.Mqtt.Topics.{construct_mqtt_topic, deconstruct_mqtt_topic}
use vda_5050_lib_js.Mqtt.Client.{agv_direction, validate_topic}
use vda_5050_lib_js.Mqtt.Client.Messages.{validate_agv_id}
use vda_5050_lib_js.Mqtt.Client.Lifecycle.{create}
use vda_5050_lib_js.Mqtt.Client.Options.{
  GivenOptions, TransportOptions, construct, validate_options,
}
use vda_5050_lib_js.Mqtt.Client.Constructed.{construct-deconstructs}
use vda_5050_lib_js.Mqtt.Client.Examples.{usual}

-- The interface name and a broker; the topic format is the usual one.
abbrev broker : TransportOptions
broker = record { broker_url = some "mqtt://localhost:1883"; topic_format = some "" }

abbrev given : GivenOptions
given = record { interface_name = some "uagv"; transport = some broker; vda_version = some "2.0.0" }

vehicle_constructed : construct given ≡ some (create {H = ℕ} usual)
unfolding construct
vehicle_constructed = refl

construct-deconstructs_example :
    deconstruct_mqtt_topic usual (construct_mqtt_topic usual "acme" "001" "state")
    ≡ (some "acme", some "001", some "state")
unfolding create validate_agv_id validate_topic agv_direction
construct-deconstructs_example =
    construct-deconstructs given (create {H = ℕ} usual) agv_direction [] "acme" "001" "state"
      vehicle_constructed refl refl

-- Without a broker, and with a version that is not known.
no_broker_refused :
    validate_options (record given { transport = none })
    ≡ some "MqttTransportOption brokerUrl is missing"
unfolding validate_options
no_broker_refused = refl

unknown_version_refused :
    validate_options (record given { vda_version = some "3.0" })
    ≡ some "Vda 3.0 Version not supported"
unfolding validate_options
unknown_version_refused = refl
