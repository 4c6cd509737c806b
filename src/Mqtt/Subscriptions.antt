-- ===== src/Mqtt/Subscriptions.antt =====
-- Subscriptions with their handlers: `SubscriptionManager` of src/common/subscription-manager.ts.
-- The subscription ids are made by the package uuid; a new id is an argument here. A map of handlers
-- that `_subscriptionIds` refers to is that at a path of `_subscriptions`: it is never replaced there.
pub mod Paths
pub mod Found
pub mod Entries
pub mod Dispatch
pub mod Undispatch
pub mod Topics
use mathlib.Core.Option
use vda_5050_lib_js.Common.Map
use vda_5050_lib_js.Common.{
  Bool, List, Option, String, [], eq_Option, eq_String, eq_ℕ, flat_map, if◌then◌else◌, length, map,
  none, set, some, ℕ, ◌++◌, ◌==◌, ◌∷◌,
}
use vda_5050_lib_js.Vda.{AgvId}
use vda_5050_lib_js.Common.Map.{Map}
use vda_5050_lib_js.Mqtt.Topics.{
  TopicFormat, construct_mqtt_topic, deconstruct_mqtt_topic, get_mqtt_topic_utf8_length,
}
use vda_5050_lib_js.Mqtt.Utf8.{assert_mqtt_topic_utf8_count}

-- A level of a path: `none` is `undefined`, the wildcard.
abbrev pub Key : Type 0
Key = Option String

-- Manufacturer, serial number and topic.
pub record Path3 : Type 0 where
  pub manufacturer : Key
  pub serial_number : Key
  pub topic : Key

-- The handlers at a path, with the property `mqttTopic` of their map.
pub record Handlers (H : Type 0) : Type 0 where
  pub handlers : Map String H
  pub mqtt_topic : Option String

pub record SubscriptionManager (H : Type 0) : Type 0 where
  pub format : TopicFormat
  pub subscriptions : Map Key (Map Key (Map Key (Handlers H)))
  pub subscription_ids : Map String Path3

abbrev or_plus : Key → String
or_plus none = "+"
or_plus (some s) = s

unfoldable pub get_mqtt_topic : TopicFormat → Path3 → String
unfolding construct_mqtt_topic
get_mqtt_topic f p =
    construct_mqtt_topic f (or_plus p.manufacturer) (or_plus p.serial_number) (or_plus p.topic)

unfoldable pub mqtt_topic_utf8_length : TopicFormat → Path3 → ℕ
unfolding get_mqtt_topic_utf8_length
mqtt_topic_utf8_length f p =
    get_mqtt_topic_utf8_length f (or_plus p.manufacturer) (or_plus p.serial_number)
      (or_plus p.topic)

-- The maps on the way to a path are made where they are missing.
abbrev pub under : {V : Type 0} → Key → Map Key (Map Key V) → Map Key V
under k m = Option.get_or (Map.get k m) []

-- What a level of `_findInternal` yields: what is under the key, and then what is under the wildcard.
abbrev pub yielded : {V A : Type 0} → (V → List A) → Option V → List A
yielded f none = []
yielded f (some v) = f v

abbrev pub follow : {V A : Type 0} → (V → List A) → Key → Map Key V → List A
follow f k m = yielded f (Map.get k m) ++ yielded f (Map.get none m)

abbrev pub first_some : Key → String → Key
first_some none s = some s
first_some (some k) s = some k

abbrev pub Added : Type 0 → Type 0
Added H = (String × Key × Bool) × SubscriptionManager H

abbrev pub Removed : Type 0 → Type 0
Removed H = Option (Key × Bool) × SubscriptionManager H

module _ {H : Type 0} where
  unfoldable pub clear : SubscriptionManager H → SubscriptionManager H
  clear m = record m { subscriptions = []; subscription_ids = [] }

  abbrev pub no_handlers : Handlers H
  no_handlers = record { handlers = []; mqtt_topic = none }

  unfoldable pub handlers_at : Path3 → Map Key (Map Key (Map Key (Handlers H))) → Handlers H
  unfolding Map.get
  handlers_at p m =
      Option.get_or (Map.get p.manufacturer (under p.serial_number (under p.topic m))) no_handlers

  unfoldable pub put_handlers :
      Path3
      → Handlers H
      → Map Key (Map Key (Map Key (Handlers H)))
      → Map Key (Map Key (Map Key (Handlers H)))
  unfolding Map.get Map.set
  put_handlers p h m =
      let serials = under p.topic m in
      let manufacturers = under p.serial_number serials in
      Map.set p.topic (Map.set p.serial_number (Map.set p.manufacturer h manufacturers) serials) m

  -- `_findInternal` from the top.
  unfoldable pub find_handlers :
      Path3 → Map Key (Map Key (Map Key (Handlers H))) → List (String × H)
  unfolding Map.get
  find_handlers p =
      follow (follow (follow (λ h. h.handlers) p.manufacturer) p.serial_number) p.topic

  -- The handlers for an inbound message with this subject, and its topic.
  unfoldable pub find : String → AgvId → SubscriptionManager H → List (String × H) × Key
  unfolding find_handlers deconstruct_mqtt_topic
  find mqtt_topic subject m =
      let (manufacturer, serial_number, topic) = deconstruct_mqtt_topic m.format mqtt_topic in
      (
        find_handlers
            (record {
              manufacturer = first_some manufacturer subject.manufacturer;
              serial_number = first_some serial_number subject.serial_number;
              topic = topic;
            })
            m.subscriptions,
        topic,
      )

  unfoldable pub added : String → Path3 → H → SubscriptionManager H → Added H
  unfolding get_mqtt_topic handlers_at put_handlers
  added id p handler m =
      let old = handlers_at p m.subscriptions in
      let entries = Map.set id handler old.handlers in
      let is_first = length entries == 1 in
      let topic = if is_first then some (get_mqtt_topic m.format p) else old.mqtt_topic in
      (
        (id, topic, is_first),
        record m {
          subscriptions =
              put_handlers p (record { handlers = entries; mqtt_topic = topic }) m.subscriptions;
          subscription_ids = Map.set id p m.subscription_ids;
        },
      )

  -- The id, the topic and whether it is to be subscribed; `none` is a throw.
  unfoldable pub add : String → Path3 → H → SubscriptionManager H → Option (Added H)
  unfolding mqtt_topic_utf8_length assert_mqtt_topic_utf8_count added
  add id p handler m =
      Option.map (λ _. added id p handler m)
        (assert_mqtt_topic_utf8_count (mqtt_topic_utf8_length m.format p))

  abbrev pub remove_at_path : String → Path3 → SubscriptionManager H → Removed H
  remove_at_path id p m =
      let old = handlers_at p m.subscriptions in
      let rest = Map.delete id old.handlers in
      if Map.has id old.handlers
      then (
        some (old.mqtt_topic, length rest == 0),
        record m {
          subscriptions = put_handlers p (record old { handlers = rest }) m.subscriptions;
        },
      )
      else (none, m)

  -- The topic and whether it is to be unsubscribed, if the id has a handler. The id keeps its map.
  unfoldable pub remove : String → SubscriptionManager H → Removed H
  unfolding Map.get Map.has Map.delete handlers_at put_handlers
  remove id m = elim (Map.get id m.subscription_ids) [
    | none ↦ (none, m)
    | some p ↦ remove_at_path id p m
  ]

  abbrev pub topic_of : Handlers H → List String
  topic_of h = elim h.mqtt_topic [
    | none ↦ []
    | some topic ↦ if length h.handlers == 0 then [] else topic ∷ []
  ]

  -- A map of handlers has its topic from its first handler on.
  unfoldable pub get_all : SubscriptionManager H → List String
  get_all m =
      flat_map
        (λ (t : Key × Map Key (Map Key (Handlers H))).
          flat_map
            (λ (s : Key × Map Key (Handlers H)).
              flat_map (λ (k : Key × Handlers H). topic_of k.1) s.1)
            t.1)
        m.subscriptions
