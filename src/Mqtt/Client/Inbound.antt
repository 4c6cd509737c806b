-- ===== src/Mqtt/Client/Inbound.antt =====
-- How an inbound message is taken by a client of src/common/client.ts: its path, the validity of its
-- object, and the calls of the handlers.
use mathlib.Core.Option
use vda_5050_lib_js.Common.{
  Bool, List, Option, String, [], ap, arith, eq_Bool, eq_Option, eq_String, eq_ℕ, false,
  if◌then◌else◌, map, none, not, refl, some, sym, true, ℕ, ◌&&◌, ◌==◌, ◌∙◌, ◌∷◌, ◌≡◌,
}
use vda_5050_lib_js.Vda.{AgvId, eq_AgvId}
use vda_5050_lib_js.Mqtt.Topics.{
  TopicFormat, compile_mqtt_topic, construct_mqtt_topic, deconstruct_mqtt_topic, major_of,
}
use vda_5050_lib_js.Mqtt.Topics.Levels.{NoSlash}
use vda_5050_lib_js.Mqtt.Topics.RoundTrip.{deconstruct-construct}
use vda_5050_lib_js.Mqtt.Client.{Topic, is_valid_topic_level, standard_topic}
use vda_5050_lib_js.Mqtt.Client.Messages.{
  Client, ClientOptions, TopicObject, has_schema, has_serial_chars, is_valid_as, is_valid_part,
  validate_agv_id, validate_topic_object,
}
use vda_5050_lib_js.Mqtt.Client.Traffic.{
  Call, Dispatched, call_of, discarded, dispatch_message, invoke, invoked, subject_of,
}
use vda_5050_lib_js.Mqtt.Client.Directions.{valid-NoSlash}
use vda_5050_lib_js.Mqtt.Subscriptions.{
  Key, Path3, SubscriptionManager, find, find_handlers, first_some, get_mqtt_topic,
}

valid_part-NoSlash :
    (valid : String → Bool) (s : String)
    → ((s : String) → valid s ≡ true → is_valid_topic_level s ≡ true)
    → is_valid_part valid (some s) false ≡ true
    → NoSlash s
valid_part-NoSlash valid s h e = valid-NoSlash s (h s (ground arith))

pub valid_id-NoSlash :
    (m s : String) → validate_agv_id (some m) (some s) false ≡ true → NoSlash m × NoSlash s
unfolding validate_agv_id
valid_id-NoSlash m s e = (
  valid_part-NoSlash is_valid_topic_level m (λ s h. h) (ground arith),
  valid_part-NoSlash (λ s. is_valid_topic_level s && has_serial_chars s) s (λ s h. ground arith)
      (ground arith),
)

first_some-same : (o : Option ℕ) (s : String) → first_some (Option.map (λ _. s) o) s ≡ some s
first_some-same none s = refl
first_some-same (some i) s = refl

module _ {H : Type 0} (throws : Call H → Bool) (quiet : (c : Call H) → throws c ≡ false) where
  invoke-invoked : (cs : List (Call H)) → invoke throws cs ≡ invoked cs
  unfolding invoke
  invoke-invoked [] = refl
  invoke-invoked (c ∷ cs) = simp (quiet c, invoke-invoked cs)

abbrev pub path_for : String → AgvId → Path3
path_for topic subject = record {
  manufacturer = some subject.manufacturer;
  serial_number = some subject.serial_number;
  topic = some topic;
}

module _ {H : Type 0} (b : SubscriptionManager H) (topic_format interface_name version : String)
    (f : TopicFormat) (topic : String) (subject : AgvId)
    (compiled : compile_mqtt_topic topic_format interface_name version ≡ some f)
    (interface-NoSlash : NoSlash interface_name) (version-NoSlash : NoSlash (major_of version))
    (format : b.format ≡ f) where
  abbrev found_as : Key × Key × Key → List (String × H) × Key
  found_as (m, s, t) = (
    find_handlers
        (record {
          manufacturer = first_some m subject.manufacturer;
          serial_number = first_some s subject.serial_number;
          topic = t;
        })
        b.subscriptions,
    t,
  )

  found_by :
      find (get_mqtt_topic f (path_for topic subject)) subject b
      ≡ found_as (
          deconstruct_mqtt_topic f
            (construct_mqtt_topic f subject.manufacturer subject.serial_number topic))
  unfolding find get_mqtt_topic
  found_by =
      ap
        (λ g. found_as (
          deconstruct_mqtt_topic g
            (construct_mqtt_topic f subject.manufacturer subject.serial_number topic)))
        format

  -- The path is found again in the MQTT topic, or else in the object.
  pub find-path :
      NoSlash subject.manufacturer
      → NoSlash subject.serial_number
      → NoSlash topic
      → find (get_mqtt_topic f (path_for topic subject)) subject b
        ≡ (find_handlers (path_for topic subject) b.subscriptions, some topic)
  find-path hm hs ht =
      let m = first_some-same f.manufacturer_index subject.manufacturer in
      let s = first_some-same f.serial_number_index subject.serial_number in
      found_by
      ∙ ap found_as (
          deconstruct-construct topic_format interface_name version f subject.manufacturer
            subject.serial_number topic compiled interface-NoSlash version-NoSlash hm hs ht)
      ∙ (λ i. (
        find_handlers (record { manufacturer = m i; serial_number = s i; topic = some topic })
            b.subscriptions,
        some topic,
      ))

-- An object that is valid for one client is valid for another of the same version and schemas.
pub same_validity :
    {G H : Type 0} (options receiver : ClientOptions) (c : Client G) (b : Client H) (topic : String)
    (t : Topic) (obj : TopicObject)
    → receiver.vda_version ≡ options.vda_version
    → receiver.schema ≡ options.schema
    → standard_topic topic ≡ some t
    → validate_topic_object receiver b (some topic) obj
      ≡ validate_topic_object options c (some topic) obj
unfolding validate_topic_object
same_validity options receiver c b topic t obj ev es et =
    ap (λ o. obj.header.version == receiver.vda_version && is_valid_as receiver b topic obj o) et
    ∙ ap (λ v. obj.header.version == v && (has_schema t v && receiver.schema v t obj)) ev
    ∙ ap
        (λ s.
          obj.header.version == options.vda_version
          && (has_schema t options.vda_version && s options.vda_version t obj))
        es
    ∙ sym (
        ap (λ o. obj.header.version == options.vda_version && is_valid_as options c topic obj o) et)

module _ {H P : Type 0} (receiver : ClientOptions) (parse : P → Option TopicObject)
    (throws : Call H → Bool) (mqtt_topic : String) (p : P) (b : Client H) where
  abbrev answered : TopicObject → List (String × H) × Key → Bool → Dispatched H
  answered obj (handlers, topic) valid =
      if receiver.validates_inbound && not valid
      then discarded
      else invoke throws (map (call_of obj topic) handlers)

  pub dispatched :
      (obj : TopicObject) (topic : String) (handlers : List (String × H))
      → parse p ≡ some obj
      → find mqtt_topic (subject_of obj) b.subscriptions ≡ (handlers, some topic)
      → validate_topic_object receiver b (some topic) obj ≡ true
      → ((call : Call H) → throws call ≡ false)
      → dispatch_message receiver parse throws mqtt_topic p b
        ≡ invoked (map (call_of obj (some topic)) handlers)
  unfolding dispatch_message
  dispatched obj topic handlers ep ef ev quiet =
      rw (ep, dispatch_message)
        (ap (λ r. answered obj r (validate_topic_object receiver b r.1 obj)) ef
          ∙ ap (answered obj (handlers, some topic)) ev
          ∙ (ground arith)
          ∙ invoke-invoked throws quiet (map (call_of obj (some topic)) handlers))
