-- ===== src/Mqtt/Examples.antt =====
-- Tests of topics, subscriptions and maps of AGV identifiers, and the theorems at concrete values.
use Prim.Native.String
use vda_5050_lib_js.Common.Map
use vda_5050_lib_js.Mqtt.AgvIdMap
use vda_5050_lib_js.Common.{
  Bool, In, String, [], eq_Bool, eq_Option, eq_String, eq_ℕ, false, ne_of_==, none, refl, some,
  true, ℕ, ◌↔◌, ◌∷◌, ◌≡◌, ◌≢◌, ◌≤◌, ◌⊎◌,
}
use vda_5050_lib_js.Vda.{AgvId, eq_AgvId}
use vda_5050_lib_js.Common.Map.{Map}
use vda_5050_lib_js.Mqtt.Utf8.{assert_mqtt_topic_length, get_utf8_bytes_count}
use vda_5050_lib_js.Mqtt.Utf8.Bytes.{assert_mqtt_topic_length_iff, utf16}
use vda_5050_lib_js.Mqtt.AgvIdMap.{AgvIdMap, delete, get, set}
use vda_5050_lib_js.Mqtt.AgvIdMap.Laws.{IsValid}
use vda_5050_lib_js.Mqtt.AgvIdMap.Valid.{AgvIdMap_laws}
use vda_5050_lib_js.Mqtt.Topics.{TopicFormat, compile_mqtt_topic, construct_mqtt_topic, format_of}
use vda_5050_lib_js.Mqtt.Subscriptions.{
  Handlers, Key, Path3, SubscriptionManager, added, find_handlers, handlers_at, remove,
}
use vda_5050_lib_js.Mqtt.Subscriptions.Found.{Matches, find_iff}
use vda_5050_lib_js.Mqtt.Subscriptions.Dispatch.{IsConsistent}
use vda_5050_lib_js.Mqtt.Subscriptions.Undispatch.{dispatch_iff}
use vda_5050_lib_js.Mqtt.Client.{
  agv_direction, master_control_direction, standard_topic, validate_topic,
}
use vda_5050_lib_js.Mqtt.Client.Directions.{IsLevel, validate_topic-fits}

assert_mqtt_topic_length_iff_example :
    (assert_mqtt_topic_length (utf16 "uagv/v2/acmé/001/order") ≡ some tt)
    ↔ (String.len "uagv/v2/acmé/001/order" ≤ 65535)
assert_mqtt_topic_length_iff_example = assert_mqtt_topic_length_iff "uagv/v2/acmé/001/order"

-- A letter with an accent takes two bytes, and one code unit.
accented : get_utf8_bytes_count (utf16 "é") ≡ 2
unfolding get_utf8_bytes_count
accented = refl

abbrev first_agv : AgvId
first_agv = record { manufacturer = "acme"; serial_number = "001" }

abbrev second_agv : AgvId
second_agv = record { manufacturer = "acme"; serial_number = "002" }

abbrev fleet : AgvIdMap ℕ
fleet = ("acme", ("001", 7) ∷ []) ∷ []

fleet-IsValid : IsValid fleet
fleet-IsValid = ((tt, tt), (((tt, tt), λ e. cc), tt))

they_differ : first_agv ≢ second_agv
they_differ = ne_of_== first_agv second_agv refl

AgvIdMap_laws_example :
    (AgvIdMap.get first_agv (AgvIdMap.set first_agv 8 fleet) ≡ some 8)
    × (AgvIdMap.get second_agv (AgvIdMap.set first_agv 8 fleet) ≡ AgvIdMap.get second_agv fleet)
    × (AgvIdMap.get first_agv (AgvIdMap.delete first_agv fleet) ≡ none)
    × (AgvIdMap.get second_agv (AgvIdMap.delete first_agv fleet) ≡ AgvIdMap.get second_agv fleet)
    × IsValid (AgvIdMap.set first_agv 8 fleet)
    × IsValid (AgvIdMap.delete first_agv fleet)
AgvIdMap_laws_example = AgvIdMap_laws first_agv second_agv 8 fleet fleet-IsValid they_differ

abbrev usual : TopicFormat
usual =
    format_of
      ("%interfaceName%" ∷ "%majorVersion%" ∷ "%manufacturer%" ∷ "%serialNumber%" ∷ "%topic%" ∷ [])
      "uagv" "2.0.0" 4

usual_compiles :
    compile_mqtt_topic "%interfaceName%/%majorVersion%/%manufacturer%/%serialNumber%/%topic%" "uagv"
      "2.0.0"
    ≡ some usual
unfolding compile_mqtt_topic
usual_compiles = refl

usual_topic : construct_mqtt_topic usual "acme" "001" "order" ≡ "uagv/v2/acme/001/order"
unfolding construct_mqtt_topic
usual_topic = refl

-- Without a place for the topic, a format is refused.
no_topic_refused : compile_mqtt_topic "%manufacturer%/%serialNumber%" "uagv" "2.0.0" ≡ none
unfolding compile_mqtt_topic
no_topic_refused = refl

abbrev everyone : Path3
everyone = record { manufacturer = none; serial_number = none; topic = some "order" }

abbrev orders_of_first : Path3
orders_of_first = record {
  manufacturer = some "acme";
  serial_number = some "001";
  topic = some "order";
}

abbrev one_handler : Map Key (Map Key (Map Key (Handlers ℕ)))
one_handler =
    (
      some "order",
      (
        none,
        (none, record { handlers = ("id", 5) ∷ []; mqtt_topic = some "uagv/v2/+/+/order" }) ∷ [],
      )
          ∷ [],
    )
    ∷ []

find_iff_example :
    In ("id", 5) (find_handlers orders_of_first one_handler)
    ↔ ((q : Path3) × Matches q orders_of_first × In ("id", 5) (handlers_at q one_handler).handlers)
find_iff_example = find_iff ("id", 5) orders_of_first one_handler

found : find_handlers orders_of_first one_handler ≡ ("id", 5) ∷ []
unfolding find_handlers Map.get
found = refl

abbrev handler : ℕ
handler = 5

abbrev entry : String × ℕ
entry = ("id", handler)

abbrev empty_manager : SubscriptionManager ℕ
empty_manager = record { format = usual; subscriptions = []; subscription_ids = [] }

empty-IsConsistent : IsConsistent empty_manager
unfolding handlers_at Map.get
empty-IsConsistent = record { referred = λ q x i. absurd i; distinct = λ q. tt }

nothing_known : Map.get "id" empty_manager.subscription_ids ≡ none
unfolding Map.get
nothing_known = refl

dispatch_iff_example :
    (In entry
        (find_handlers orders_of_first (added "id" everyone handler empty_manager).1.subscriptions)
      ↔ (In entry (find_handlers orders_of_first [])
          ⊎ ((entry ≡ ("id", handler)) × Matches everyone orders_of_first)))
    × (In entry (
          find_handlers orders_of_first
            (remove "id" (added "id" everyone handler empty_manager).1).1.subscriptions)
        ↔ (In entry (
              find_handlers orders_of_first
                (added "id" everyone handler empty_manager).1.subscriptions)
            × (entry.0 ≢ "id")))
    × IsConsistent (added "id" everyone handler empty_manager).1
dispatch_iff_example =
    dispatch_iff "id" everyone orders_of_first handler empty_manager entry empty-IsConsistent
      nothing_known

abbrev registered : Map String (Bool × Bool)
registered = ("acme/x", (true, true)) ∷ []

-- An extension topic with a separator, though registered, does not pass.
validate_topic-fits_example :
    ((standard_topic "acme/x" ≡ none)
      ⊎ (validate_topic agv_direction registered "acme/x" true
          ≡ validate_topic master_control_direction registered "acme/x" false))
    × ((validate_topic agv_direction registered "acme/x" true ≡ false) ⊎ IsLevel "acme/x")
    × ((validate_topic master_control_direction registered "acme/x" true ≡ false)
        ⊎ IsLevel "acme/x")
validate_topic-fits_example = validate_topic-fits registered registered "acme/x" true

order_subscribed : validate_topic agv_direction [] "order" true ≡ true
unfolding validate_topic agv_direction
order_subscribed = refl
