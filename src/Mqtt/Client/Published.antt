-- ===== src/Mqtt/Client/Published.antt =====
-- What `publishTopic` of src/common/client.ts does in each case.
use Prim.Native.String
use Prim.Native.String.len
use mathlib.Core.Option
use vda_5050_lib_js.Common.Map
use vda_5050_lib_js.Common.{
  Bool, List, Option, String, [], ap, arith, eq_Bool, eq_Option, eq_String, eq_ℕ, false,
  if◌then◌else◌, is_some, none, not, refl, some, sym, true, ◌&&◌, ◌++◌, ◌||◌, ◌↔◌, ◌∙◌, ◌∷◌, ◌≡◌,
  ◌≤◌,
}
use vda_5050_lib_js.Vda.{AgvId, Json, eq_AgvId}
use vda_5050_lib_js.Common.Map.{Map}
use vda_5050_lib_js.Mqtt.Utf8.{assert_mqtt_topic_length}
use vda_5050_lib_js.Mqtt.Utf8.Bytes.{assert_mqtt_topic_length_iff, utf16}
use vda_5050_lib_js.Mqtt.Client.{next_header_id, validate_topic}
use vda_5050_lib_js.Mqtt.Client.Messages.{
  Client, ClientOptions, Message, Packet, TopicObject, publish, validate_agv_id,
  validate_topic_object, with_object_header,
}
use vda_5050_lib_js.Mqtt.Client.Traffic.{
  Published, accepted, dropped, publish_topic, refused, topic_for,
}

is_some-unit : (o : Option {0} Unit) → (is_some o ≡ true) ↔ (o ≡ some tt)
is_some-unit none = (λ e. cc, λ e. cc)
is_some-unit (some tt) = (λ e. refl, λ e. refl)

-- What a publication hands to the mqtt client.
abbrev pub sent : Published → List Packet
sent refused = []
sent dropped = []
sent (accepted m) = publish m ∷ []

module _ {H : Type 0} (options : ClientOptions) (now topic : String) (subject : AgvId)
    (timestamp : Option String) (content : Json) (retain drop_if_offline : Bool)
    (c : Client H) where
  abbrev pub is_allowed : Bool
  is_allowed =
      c.is_started
      && validate_topic options.direction c.extension_topics topic false
      && validate_agv_id (some subject.manufacturer) (some subject.serial_number) false

  -- The object with the next header id of its topic, and its message.
  abbrev pub numbered : TopicObject
  numbered =
      with_object_header options now subject timestamp content
        (Option.get_or (Map.get topic c.header_ids) 0)

  abbrev pub message : Message
  message = record { mqtt_topic = topic_for c topic subject; payload = numbered; retain = retain }

  abbrev pub is_valid : Bool
  is_valid = not options.validates_outbound || validate_topic_object options c (some topic) numbered

  abbrev is_short : Bool
  is_short = is_some (assert_mqtt_topic_length (utf16 (topic_for c topic subject)))

  abbrev pub result : Published × Client H
  result = publish_topic options now topic subject timestamp content retain drop_if_offline c

  abbrev counted : Client H
  counted = record c { header_ids = (next_header_id topic c.header_ids).1 }

  not_allowed : is_allowed ≡ false → result ≡ (refused, c)
  unfolding publish_topic
  not_allowed e = ground arith

  allowed :
      is_allowed ≡ true
      → result ≡ (
          if not is_valid
          then (refused, counted)
          else if not is_short
          then (refused, counted)
          else if not c.connected && drop_if_offline
          then (dropped, counted)
          else (accepted message, record counted { packets = publish message ∷ c.packets }))
  unfolding publish_topic next_header_id validate_topic_object
  allowed e = ground arith

  abbrev outcome : (allowed valid short drops : Bool) → Published × Client H
  outcome false valid short drops = (refused, c)
  outcome true false short drops = (refused, counted)
  outcome true true false drops = (refused, counted)
  outcome true true true true = (dropped, counted)
  outcome true true true false =
      (accepted message, record counted { packets = publish message ∷ c.packets })

  result_cases :
      (a v s d : Bool)
      → is_allowed ≡ a
      → is_valid ≡ v
      → is_short ≡ s
      → (not c.connected && drop_if_offline) ≡ d
      → result ≡ outcome a v s d
  result_cases false v s d ea ev es ed = not_allowed ea
  result_cases true false s d ea ev es ed = allowed ea ∙ simp ev
  result_cases true true false d ea ev es ed = allowed ea ∙ simp (ev, es)
  result_cases true true true true ea ev es ed = allowed ea ∙ simp (ev, es, ed)
  result_cases true true true false ea ev es ed = allowed ea ∙ simp (ev, es, ed)

  outcome_iff :
      (a v s d : Bool) (m : Message)
      → ((outcome a v s d).0 ≡ accepted m)
        ↔ ((a ≡ true) × (v ≡ true) × (s ≡ true) × (d ≡ false) × (m ≡ message))
  outcome_iff false v s d m = (λ e. absurd (cc), λ (e, _, _, _, _). absurd (cc))
  outcome_iff true false s d m = (λ e. absurd (cc), λ (_, e, _, _, _). absurd (cc))
  outcome_iff true true false d m = (λ e. absurd (cc), λ (_, _, e, _, _). absurd (cc))
  outcome_iff true true true true m = (λ e. absurd (cc), λ (_, _, _, e, _). absurd (cc))
  outcome_iff true true true false m = (
    λ e. let same : message ≡ m = cc in (refl, refl, refl, refl, sym same),
    λ (_, _, _, _, e). ap accepted (sym e),
  )

  outcome-sent :
      (a v s d : Bool)
      → ((outcome a v s d).1.packets ≡ sent (outcome a v s d).0 ++ c.packets)
        × ((outcome a v s d).1.header_ids ≡ (if a then counted.header_ids else c.header_ids))
  outcome-sent false v s d = (refl, refl)
  outcome-sent true false s d = (refl, refl)
  outcome-sent true true false d = (refl, refl)
  outcome-sent true true true true = (refl, refl)
  outcome-sent true true true false = (refl, refl)

  is_short_iff : (is_short ≡ true) ↔ (String.len (topic_for c topic subject) ≤ 65535)
  is_short_iff =
      let (to, from) =
        is_some-unit (assert_mqtt_topic_length (utf16 (topic_for c topic subject))) in
      let (one, two) = assert_mqtt_topic_length_iff (topic_for c topic subject) in
      (λ e. one (to e), λ h. from (two h))

  same_result : result ≡ outcome is_allowed is_valid is_short (not c.connected && drop_if_offline)
  same_result = result_cases is_allowed is_valid is_short _ refl refl refl refl

  -- What a client keeps when it publishes.
  abbrev pub Kept : Client H → Type 0
  Kept after =
      (after.subscriptions ≡ c.subscriptions)
      × (after.connection_state ≡ c.connection_state)
      × (after.has_callback ≡ c.has_callback)
      × (after.told_states ≡ c.told_states)

  outcome-Kept : (a v s d : Bool) → Kept (outcome a v s d).1
  outcome-Kept false v s d = (refl, refl, refl, refl)
  outcome-Kept true false s d = (refl, refl, refl, refl)
  outcome-Kept true true false d = (refl, refl, refl, refl)
  outcome-Kept true true true true = (refl, refl, refl, refl)
  outcome-Kept true true true false = (refl, refl, refl, refl)

  pub publish_topic-Kept : Kept result.1
  publish_topic-Kept = rw same_result (outcome-Kept is_allowed is_valid is_short _)

  -- What decides about further publications is kept.
  abbrev pub KeepsChecks : Client H → Type 0
  KeepsChecks after =
      (after.is_started ≡ c.is_started) × (after.extension_topics ≡ c.extension_topics)

  outcome-KeepsChecks : (a v s d : Bool) → KeepsChecks (outcome a v s d).1
  outcome-KeepsChecks false v s d = (refl, refl)
  outcome-KeepsChecks true false s d = (refl, refl)
  outcome-KeepsChecks true true false d = (refl, refl)
  outcome-KeepsChecks true true true true = (refl, refl)
  outcome-KeepsChecks true true true false = (refl, refl)

  pub publish_topic-KeepsChecks : KeepsChecks result.1
  publish_topic-KeepsChecks = rw same_result (outcome-KeepsChecks is_allowed is_valid is_short _)

  -- A publication is handed over exactly if the client is started, its topic and its subject are
  -- valid, its object is valid where outbound objects are validated, its MQTT topic has at most
  -- 65535 bytes, and it is not to be dropped while offline. It is then the content with its header,
  -- under the next header id of the topic. No other packet is sent, and a header id is used up
  -- exactly where topic and subject are valid in a started client, also for a message that is
  -- then refused or dropped.
  pub publish_topic_iff :
      ((m : Message)
        → (result.0 ≡ accepted m) ↔ (
            (is_allowed ≡ true)
            × (is_valid ≡ true)
            × (String.len (topic_for c topic subject) ≤ 65535)
            × ((not c.connected && drop_if_offline) ≡ false)
            × (m ≡ message)))
      × (result.1.packets ≡ sent result.0 ++ c.packets)
      × (result.1.header_ids ≡ (if is_allowed then counted.header_ids else c.header_ids))
  publish_topic_iff =
      let (packets, ids) = outcome-sent is_allowed is_valid is_short _ in
      rw same_result (
        λ m.
            let (to, from) = outcome_iff is_allowed is_valid is_short _ m in
            (
              λ e. let (a, v, s, d, h) = to e in (a, v, is_short_iff.0 s, d, h),
              λ (a, v, s, d, h). from (a, v, is_short_iff.1 s, d, h),
            ),
        packets,
        ids,
      )
