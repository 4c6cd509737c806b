-- ===== src/Mqtt/Client/Delivered.antt =====
-- From `publishTopic` of one client to the handlers of another: src/common/client.ts on top of
-- src/common/subscription-manager.ts.
use vda_5050_lib_js.Common.{
  Bool, In, List, Option, String, ap, arith, false, map, some, true, ◌↔◌, ◌∙◌, ◌≡◌,
}
use vda_5050_lib_js.Vda.{AgvId, Json}
use vda_5050_lib_js.Mqtt.Topics.{TopicFormat, compile_mqtt_topic, major_of}
use vda_5050_lib_js.Mqtt.Topics.Levels.{NoSlash}
use vda_5050_lib_js.Mqtt.Client.{Topic, standard_topic}
use vda_5050_lib_js.Mqtt.Client.Messages.{
  Client, ClientOptions, Message, TopicObject, validate_topic_object, with_object_header,
}
use vda_5050_lib_js.Mqtt.Client.Traffic.{
  Call, Published, accepted, call_of, dispatch_message, invoked, publish_topic, subject_of,
}
use vda_5050_lib_js.Mqtt.Client.Published.{numbered, publish_topic_iff}
use vda_5050_lib_js.Mqtt.Client.Directions.{valid_topic-NoSlash}
use vda_5050_lib_js.Mqtt.Subscriptions.{Path3, find, find_handlers, get_mqtt_topic, handlers_at}
use vda_5050_lib_js.Mqtt.Subscriptions.Found.{Matches, find_iff}
use vda_5050_lib_js.Mqtt.Client.Inbound.{
  dispatched, find-path, path_for, same_validity, valid_id-NoSlash,
}

module _ {G : Type 0} (options : ClientOptions) (now topic : String) (t : Topic) (subject : AgvId)
    (timestamp : Option String) (content : Json) (retain drop_if_offline : Bool) (c : Client G)
    (m : Message) where
  abbrev published : Published × Client G
  published = publish_topic options now topic subject timestamp content retain drop_if_offline c

  -- A message that a client has handed over, for a topic of the standard and with its outbound
  -- objects validated, is dispatched by every client that uses the same topic format, version and
  -- schemas to exactly the handlers of its subscriptions to the topic and the AGV, by name or by a
  -- wildcard; each is called with the object that was published, if none of them throws. The format
  -- has the usual places, and the interface name and the version are levels of a topic.
  pub publish-delivered :
      {H P : Type 0} (receiver : ClientOptions) (topic_format interface_name : String)
      (f : TopicFormat) (b : Client H) (parse : P → Option TopicObject) (throws : Call H → Bool)
      (p : P)
      → compile_mqtt_topic topic_format interface_name options.vda_version ≡ some f
      → NoSlash interface_name
      → NoSlash (major_of options.vda_version)
      → c.subscriptions.format ≡ f
      → b.subscriptions.format ≡ f
      → receiver.vda_version ≡ options.vda_version
      → receiver.schema ≡ options.schema
      → options.validates_outbound ≡ true
      → standard_topic topic ≡ some t
      → parse p ≡ some m.payload
      → ((call : Call H) → throws call ≡ false)
      → published.0 ≡ accepted m
      → (handlers : List (String × H)) × (dispatch_message receiver parse throws m.mqtt_topic p b
          ≡ invoked (map (call_of m.payload (some topic)) handlers))
        × ((x : String × H)
            → In x handlers ↔ (
                (q : Path3) × Matches q (path_for topic subject)
                × In x (handlers_at q b.subscriptions.subscriptions).handlers))
  unfolding with_object_header
  publish-delivered receiver topic_format interface_name f b parse throws p compiled hi hv ec eb ev
        es eo et ep quiet e =
      let (accept, _, _) =
        publish_topic_iff options now topic subject timestamp content retain drop_if_offline c in
      let (allowed, valid, _, _, same) = (accept m).0 e in
      let obj = numbered options now topic subject timestamp content retain drop_if_offline c in
      let payload : m.payload ≡ obj = ap (λ (n : Message). n.payload) same in
      let (hm, hs) = valid_id-NoSlash subject.manufacturer subject.serial_number (ground arith) in
      let ht =
        valid_topic-NoSlash options.direction c.extension_topics topic false (ground arith) in
      let handlers = find_handlers (path_for topic subject) b.subscriptions.subscriptions in
      let there : m.mqtt_topic ≡ get_mqtt_topic f (path_for topic subject) =
        ap (λ (n : Message). n.mqtt_topic) same
        ∙ ap (λ g. get_mqtt_topic g (path_for topic subject)) ec in
      let found : find m.mqtt_topic (subject_of m.payload) b.subscriptions
          ≡ (handlers, some topic) =
        ap (λ s. find s (subject_of m.payload) b.subscriptions) there
        ∙ ap (λ o. find (get_mqtt_topic f (path_for topic subject)) (subject_of o) b.subscriptions)
            payload
        ∙ find-path b.subscriptions topic_format interface_name options.vda_version f topic subject
            compiled hi hv eb hm hs ht in
      let valid_for_b : validate_topic_object receiver b (some topic) m.payload ≡ true =
        same_validity options receiver c b topic t m.payload ev es et
        ∙ ap (validate_topic_object options c (some topic)) payload
        ∙ (ground arith) in
      (
        handlers,
        dispatched receiver parse throws m.mqtt_topic p b m.payload topic handlers ep found
            valid_for_b quiet,
        λ x. find_iff x (path_for topic subject) b.subscriptions.subscriptions,
      )
