-- ===== src/Mqtt/Client/Traffic.antt =====
-- What a client does with messages: `publishTopic`, `subscribeTopic`, `unsubscribe`,
-- `_dispatchMessage` of src/common/client.ts. Handlers are parameters that tell whether they throw;
-- they change no subscription here.
use vda_5050_lib_js.Common.{
  Bool, List, Option, String, [], false, if◌then◌else◌, is_some, map, none, not, some, true, ◌&&◌,
  ◌||◌, ◌∷◌,
}
use vda_5050_lib_js.Vda.{AgvId, Json}
use vda_5050_lib_js.Mqtt.Client.Messages.{
  Client, ClientOptions, Message, TopicObject, publish, subscribe, unsubscribe, validate_agv_id,
  validate_topic_object, with_object_header,
}
use vda_5050_lib_js.Mqtt.Subscriptions.{
  Added, Key, Path3, Removed, add, find, get_mqtt_topic, remove,
}
use vda_5050_lib_js.Mqtt.Client.{next_header_id, validate_topic}
use vda_5050_lib_js.Mqtt.Utf8.{assert_mqtt_topic_length}
use vda_5050_lib_js.Mqtt.Utf8.Bytes.{utf16}

-- A publication is refused by a throw, dropped, or handed to the mqtt client, which queues it while
-- it is not connected.
pub data Published : Type 0 where
  refused dropped : Published
  accepted : Message → Published

abbrev pub topic_for : {H : Type 0} → Client H → String → AgvId → String
topic_for c topic subject = get_mqtt_topic c.subscriptions.format (record {
  manufacturer = some subject.manufacturer;
  serial_number = some subject.serial_number;
  topic = some topic;
})

module _ {H : Type 0} (options : ClientOptions) (now : String) where
  abbrev hand_over : Message → Bool → Client H → Published × Client H
  hand_over m drop_if_offline c =
      if not c.connected && drop_if_offline
      then (dropped, c)
      else (accepted m, record c { packets = publish m ∷ c.packets })

  -- What follows when the arguments have been found valid: a header id is taken from here on.
  abbrev publish_object :
      String
      → AgvId
      → Option String
      → Json
      → (retain drop_if_offline : Bool) → Client H
      → Published × Client H
  publish_object topic subject timestamp content retain drop_if_offline c =
      let (id, header_ids) = next_header_id topic c.header_ids in
      let counted = record c { header_ids = header_ids } in
      let obj = with_object_header options now subject timestamp content id in
      if options.validates_outbound && not (validate_topic_object options counted (some topic) obj)
      then (refused, counted)
      else if not (is_some (assert_mqtt_topic_length (utf16 (topic_for c topic subject))))
      then (refused, counted)
      else hand_over
          (record { mqtt_topic = topic_for c topic subject; payload = obj; retain = retain })
          drop_if_offline counted

  unfoldable pub publish_topic :
      String
      → AgvId
      → Option String
      → Json
      → (retain drop_if_offline : Bool) → Client H
      → Published × Client H
  unfolding validate_topic validate_agv_id next_header_id with_object_header validate_topic_object
      get_mqtt_topic assert_mqtt_topic_length
  publish_topic topic subject timestamp content retain drop_if_offline c =
      if not c.is_started
        || not (validate_topic options.direction c.extension_topics topic false)
        || not (validate_agv_id (some subject.manufacturer) (some subject.serial_number) false)
      then (refused, c)
      else publish_object topic subject timestamp content retain drop_if_offline c

-- A subscription is refused by a throw, or has its id.
pub data Subscribed : Type 0 where
  refused_subscription : Subscribed
  subscribed : (id : String) → Subscribed

module _ {H : Type 0} (options : ClientOptions) where
  abbrev pub request : Option String → Bool → Client H → Client H
  request topic requires_subscribe c =
      if requires_subscribe && c.connected
      then record c { packets = subscribe topic ∷ c.packets }
      else c

  abbrev pub enter_subscription : Option (Added H) → Client H → Subscribed × Client H
  enter_subscription none c = (refused_subscription, c)
  enter_subscription (some ((id, topic, requires_subscribe), subscriptions)) c =
      (subscribed id, request topic requires_subscribe (record c { subscriptions = subscriptions }))

  abbrev pub subscribe_on : (id : String) → Path3 → H → Client H → Key → Subscribed × Client H
  subscribe_on id path handler c none = (refused_subscription, c)
  subscribe_on id path handler c (some topic) =
      if not c.is_started
        || not (validate_topic options.direction c.extension_topics topic true)
        || not (validate_agv_id path.manufacturer path.serial_number true)
      then (refused_subscription, c)
      else enter_subscription (add id path handler c.subscriptions) c

  -- While the client is offline, the topic is subscribed when it connects.
  unfoldable pub subscribe_topic : (id : String) → Path3 → H → Client H → Subscribed × Client H
  unfolding validate_topic validate_agv_id add
  subscribe_topic id path handler c = subscribe_on id path handler c path.topic

-- `rejected` is an exception in the promise: the id has no handler.
pub data Unsubscribed : Type 0 where
  refused_removal rejected unsubscribed : Unsubscribed

module _ {H : Type 0} where
  abbrev pub withdraw : Removed H → Client H → Unsubscribed × Client H
  withdraw (none, subscriptions) c = (rejected, record c { subscriptions = subscriptions })
  withdraw (some (topic, requires_unsubscribe), subscriptions) c =
      let after = record c { subscriptions = subscriptions } in
      (
        unsubscribed,
        if requires_unsubscribe && c.connected
            then record after { packets = unsubscribe topic ∷ c.packets }
            else after,
      )

  unfoldable pub unsubscribe_id : String → Client H → Unsubscribed × Client H
  unfolding remove
  unsubscribe_id id c =
      if not c.is_started then (refused_removal, c) else withdraw (remove id c.subscriptions) c

pub record Call (H : Type 0) : Type 0 where
  pub id : String
  pub handler : H
  pub payload : TopicObject
  pub subject : AgvId
  pub topic : Key

pub data Dispatched (H : Type 0) : Type 0 where
  discarded : Dispatched H
  invoked uncaught : (calls : List (Call H)) → Dispatched H

module _ {H : Type 0} where
  abbrev pub prefixed : Call H → Dispatched H → Dispatched H
  prefixed c discarded = discarded
  prefixed c (invoked calls) = invoked (c ∷ calls)
  prefixed c (uncaught calls) = uncaught (c ∷ calls)

  -- The handlers in series, until one throws.
  unfoldable pub invoke : (throws : Call H → Bool) → List (Call H) → Dispatched H
  invoke throws [] = invoked []
  invoke throws (c ∷ cs) =
      let rest = invoke throws cs in if throws c then uncaught (c ∷ []) else prefixed c rest

abbrev pub subject_of : TopicObject → AgvId
subject_of obj = record {
  manufacturer = obj.header.manufacturer;
  serial_number = obj.header.serial_number;
}

abbrev pub call_of : {H : Type 0} → TopicObject → Key → String × H → Call H
call_of obj topic (id, handler) = record {
  id = id;
  handler = handler;
  payload = obj;
  subject = subject_of obj;
  topic = topic;
}

-- `parse` is the decoding of a payload with `JSON.parse`.
module _ {H : Type 0} {P : Type 0} (options : ClientOptions) (parse : P → Option TopicObject)
    (throws : Call H → Bool) where
  abbrev pub dispatch_object : String → TopicObject → Client H → Dispatched H
  dispatch_object mqtt_topic obj c =
      let (handlers, topic) = find mqtt_topic (subject_of obj) c.subscriptions in
      if options.validates_inbound && not (validate_topic_object options c topic obj)
      then discarded
      else invoke throws (map (call_of obj topic) handlers)

  unfoldable pub dispatch_message : (mqtt_topic : String) → P → Client H → Dispatched H
  unfolding find validate_topic_object invoke
  dispatch_message mqtt_topic p c = elim (parse p) [
    | none ↦ discarded
    | some obj ↦ dispatch_object mqtt_topic obj c
  ]
