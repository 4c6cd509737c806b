-- ===== src/Mqtt/Client/Examples.antt =====
-- A vehicle's client and a master's client, and the theorems on their messages at them.
pub mod Constructors
use Prim.Native.Nat.{◌^◌}
use Prim.Native.String
use Prim.Native.String.len
use vda_5050_lib_js.Common.Map
use vda_5050_lib_js.Common.{
  In, List, String, [], eq_Bool, eq_Option, eq_String, eq_ℕ, false, if◌then◌else◌, inl, inr, map,
  none, not, refl, some, true, ℕ, ◌%◌, ◌&&◌, ◌++◌, ◌↔◌, ◌∷◌, ◌≡◌, ◌≢◌, ◌≤◌,
}
use vda_5050_lib_js.Vda.{AgvId, eq_AgvId, null}
use vda_5050_lib_js.Common.Map.{Map}
use vda_5050_lib_js.Mqtt.Topics.{TopicFormat, compile_mqtt_topic, format_of}
use vda_5050_lib_js.Mqtt.Client.{
  agv_direction, is_valid_topic_level, master_control_direction, next_header_id, state,
  validate_topic,
}
use vda_5050_lib_js.Mqtt.Client.Messages.{
  Client, ClientOptions, Message, Packet, TopicObject, has_schema, has_serial_chars,
  is_valid_vda_version, subscribe, validate_agv_id, validate_topic_object, with_object_header,
}
use vda_5050_lib_js.Mqtt.Client.Traffic.{
  Published, accepted, call_of, dispatch_message, invoked, publish_topic, subscribe_topic,
  topic_for,
}
use vda_5050_lib_js.Mqtt.Client.Lifecycle.{
  Reachable, create, created, disconnecting, followed, on_connect, on_offline,
  register_connection_state_change, registering, start, starting, subscribing,
}
use vda_5050_lib_js.Mqtt.Client.Published.{is_allowed, is_valid, message, publish_topic_iff, sent}
use vda_5050_lib_js.Mqtt.Client.Inbound.{path_for}
use vda_5050_lib_js.Mqtt.Client.Delivered.{publish-delivered}
use vda_5050_lib_js.Mqtt.Client.Versions.{publish_topic-short_version}
use vda_5050_lib_js.Mqtt.Client.Reconnected.{on_connect-subscribes}
use vda_5050_lib_js.Mqtt.Client.States.{IsTold, Reachable-IsTold}
use vda_5050_lib_js.Mqtt.Subscriptions.{Path3, add, get_all, get_mqtt_topic, handlers_at}
use vda_5050_lib_js.Mqtt.Subscriptions.Found.{Matches}
use vda_5050_lib_js.Mqtt.Client.HeaderIds.{
  Publication, ids_taken, publish_all, publish_all-numbers, publish_one,
}

abbrev vehicle : AgvId
vehicle = record { manufacturer = "acme"; serial_number = "001" }

abbrev vehicle_options : ClientOptions
vehicle_options = record {
  vda_version = "2.0.0";
  validates_inbound = true;
  validates_outbound = true;
  direction = agv_direction;
  schema = λ version topic obj. true;
}

abbrev master_options : ClientOptions
master_options = record vehicle_options { direction = master_control_direction }

abbrev short_options : ClientOptions
short_options = record vehicle_options { vda_version = "2.0" }

abbrev format_text : String
format_text = "%interfaceName%/%majorVersion%/%manufacturer%/%serialNumber%/%topic%"

abbrev pub usual : TopicFormat
usual =
    format_of
      ("%interfaceName%" ∷ "%majorVersion%" ∷ "%manufacturer%" ∷ "%serialNumber%" ∷ "%topic%" ∷ [])
      "uagv" "2.0.0" 4

usual_compiles : compile_mqtt_topic format_text "uagv" "2.0.0" ≡ some usual
unfolding compile_mqtt_topic
usual_compiles = refl

abbrev vehicle_client : Client ℕ
vehicle_client = start (create usual)

abbrev all_states : Path3
all_states = record { manufacturer = none; serial_number = none; topic = some "state" }

abbrev master_client : Client ℕ
master_client = (subscribe_topic master_options "id" all_states 5 (start (create usual))).1

abbrev now : String
now = "2026-01-01T00:00:00Z"

abbrev published : Published × Client ℕ
published = publish_topic vehicle_options now "state" vehicle none null false false vehicle_client

abbrev sent_message : Message
sent_message = message vehicle_options now "state" vehicle none null false false vehicle_client

state_is_sent : published.0 ≡ accepted sent_message
unfolding publish_topic agv_direction start create on_connect get_all with_object_header has_schema
    next_header_id is_valid_topic_level has_serial_chars validate_agv_id validate_topic
    validate_topic_object
state_is_sent = refl

heard : (handlers_at all_states master_client.subscriptions.subscriptions).handlers ≡ ("id", 5) ∷ []
unfolding subscribe_topic start create on_connect handlers_at Map.get master_control_direction add
heard = refl

state_is_dispatched :
    dispatch_message {P = TopicObject} master_options some
      (λ c. false)
      "uagv/v2/acme/001/state"
      sent_message.payload
      master_client
    ≡ invoked (call_of sent_message.payload (some "state") ("id", 5) ∷ [])
unfolding dispatch_message subscribe_topic start create on_connect master_control_direction
    with_object_header
state_is_dispatched = refl

publish_topic_iff_example :
    ((m : Message)
      → (published.0 ≡ accepted m) ↔ (
          (is_allowed vehicle_options now "state" vehicle none null false false vehicle_client
            ≡ true)
          × (is_valid vehicle_options now "state" vehicle none null false false vehicle_client
              ≡ true)
          × (String.len (topic_for vehicle_client "state" vehicle) ≤ 65535)
          × ((not vehicle_client.connected && false) ≡ false)
          × (m ≡ sent_message)))
    × (published.1.packets ≡ sent published.0 ++ vehicle_client.packets)
    × (published.1.header_ids ≡ (
        if is_allowed vehicle_options now "state" vehicle none null false false vehicle_client
        then (next_header_id "state" vehicle_client.header_ids).1
        else vehicle_client.header_ids))
publish_topic_iff_example =
    publish_topic_iff vehicle_options now "state" vehicle none null false false vehicle_client

publish-delivered_example :
    (handlers : List (String × ℕ)) × (dispatch_message master_options some
        (λ c. false)
        sent_message.mqtt_topic
        sent_message.payload
        master_client
      ≡ invoked (map (call_of sent_message.payload (some "state")) handlers))
    × ((x : String × ℕ)
        → In x handlers ↔ (
            (q : Path3) × Matches q (path_for "state" vehicle)
            × In x (handlers_at q master_client.subscriptions.subscriptions).handlers))
unfolding start create on_connect subscribe_topic master_control_direction
publish-delivered_example =
    publish-delivered vehicle_options now "state" state vehicle none null false false vehicle_client
      sent_message master_options format_text "uagv" usual master_client some (λ c. false)
      sent_message.payload usual_compiles (refl, (refl, (refl, (refl, tt)))) (refl, (refl, tt)) refl
      refl refl refl refl refl refl (λ c. refl) state_is_sent

publish_topic-short_version_example :
    (is_valid_vda_version short_options.vda_version ≡ true)
    × ((m : Message)
        → (publish_topic short_options now "state" vehicle none null false false vehicle_client).0
          ≢ accepted m)
    × ((publish_topic short_options now "state" vehicle none null false false
          vehicle_client).1.packets
        ≡ vehicle_client.packets)
publish_topic-short_version_example =
    publish_topic-short_version short_options now "state" state vehicle none null false false
      vehicle_client (inr (inl refl)) refl refl

abbrev offline_master : Client ℕ
offline_master = on_offline master_client

offline_master-Reachable : Reachable master_options offline_master
offline_master-Reachable =
    followed master_client offline_master
      (followed (start (create usual)) master_client
        (followed (create usual) (start (create usual)) (created usual) (starting (create usual)))
        (subscribing (start (create usual)) "id" all_states 5))
      (disconnecting master_client)

still_heard :
    (handlers_at all_states offline_master.subscriptions.subscriptions).handlers ≡ ("id", 5) ∷ []
unfolding subscribe_topic start create on_connect handlers_at Map.get master_control_direction add
    on_offline
still_heard = refl

on_connect-subscribes_example :
    (again : List Packet) × ((on_connect offline_master).packets ≡ again ++ offline_master.packets)
    × In (subscribe (some (get_mqtt_topic offline_master.subscriptions.format all_states))) again
unfolding handlers_at subscribe_topic start create on_connect master_control_direction on_offline
on_connect-subscribes_example =
    on_connect-subscribes master_options offline_master all_states ("id", 5)
      offline_master-Reachable (inl refl)

Reachable-IsTold_example : IsTold (on_offline (register_connection_state_change offline_master))
Reachable-IsTold_example =
    Reachable-IsTold master_options (on_offline (register_connection_state_change offline_master)) (
      followed (register_connection_state_change offline_master)
        (on_offline (register_connection_state_change offline_master))
        (followed offline_master (register_connection_state_change offline_master)
          offline_master-Reachable (registering offline_master))
        (disconnecting (register_connection_state_change offline_master)))

-- A state, to be dropped while the vehicle is offline.
abbrev state_publication : Publication
state_publication = record {
  now = now;
  topic = "state";
  subject = vehicle;
  timestamp = none;
  content = null;
  retain = false;
  drop_if_offline = true;
}

abbrev offline_vehicle : Client ℕ
offline_vehicle = on_offline vehicle_client

abbrev kept_publication : Publication
kept_publication = record state_publication { drop_if_offline = false }

abbrev second_message : Message
second_message =
    message vehicle_options now "state" vehicle none null false false
      (publish_all vehicle_options (state_publication ∷ []) offline_vehicle)

second_is_sent :
    (publish_one vehicle_options kept_publication
      (publish_all vehicle_options (state_publication ∷ []) offline_vehicle)).0
    ≡ accepted second_message
unfolding publish_topic agv_direction start create on_connect get_all with_object_header has_schema
    next_header_id is_valid_topic_level has_serial_chars validate_agv_id validate_topic
    validate_topic_object on_offline
second_is_sent = refl

-- The first publication has been dropped, and has used an id up.
publish_all-numbers_example :
    second_message.payload.header.header_id
    ≡ ids_taken vehicle_options offline_vehicle "state" (state_publication ∷ []) % 2 ^ 32
unfolding start create on_connect on_offline
publish_all-numbers_example =
    publish_all-numbers vehicle_options offline_vehicle (state_publication ∷ []) kept_publication
      second_message refl second_is_sent
