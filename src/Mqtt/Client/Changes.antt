-- ===== src/Mqtt/Client/Changes.antt =====
-- What `subscribeTopic` and `unsubscribe` of src/common/client.ts change: subscriptions and packets.
use mathlib.Core.Option
use vda_5050_lib_js.Common.{
  Bool, Bool-cases, List, Option, String, false, if◌then◌else◌, inl, inr, none, not, refl, some,
  true, ◌&&◌, ◌||◌, ◌∷◌, ◌≡◌, ◌⊎◌,
}
use vda_5050_lib_js.Mqtt.Utf8.{assert_mqtt_topic_utf8_count}
use vda_5050_lib_js.Mqtt.Client.{validate_topic}
use vda_5050_lib_js.Mqtt.Client.Messages.{
  Client, ClientOptions, Packet, subscribe, unsubscribe, validate_agv_id,
}
use vda_5050_lib_js.Mqtt.Client.Traffic.{
  Subscribed, enter_subscription, refused_removal, refused_subscription, request, subscribe_on,
  subscribe_topic, unsubscribe_id, withdraw,
}
use vda_5050_lib_js.Mqtt.Subscriptions.{
  Key, Path3, Removed, add, added, mqtt_topic_utf8_length, remove,
}

module _ {H : Type 0} (options : ClientOptions) (id : String) (path : Path3) (handler : H)
    (c : Client H) where
  abbrev pub Entered : Client H → Type 0
  Entered after =
      (after ≡ c)
      ⊎ ((ps : List Packet) × (after
            ≡ record c { subscriptions = (added id path handler c.subscriptions).1; packets = ps }))

  requested :
      (topic : Option String) (b : Bool) (d : Client H)
      → (ps : List Packet) × (request options topic b d ≡ record d { packets = ps })
  requested topic b d = elim (Bool-cases (b && d.connected)) [
    | inl e ↦ (subscribe topic ∷ d.packets, simp e)
    | inr e ↦ (d.packets, simp e)
  ]

  entered :
      (o : Option {0} Unit)
      → Entered
          (enter_subscription options
            (Option.map (λ _. added id path handler c.subscriptions) o)
            c).1
  entered none = inl refl
  entered (some tt) = inr (
      requested _ (added id path handler c.subscriptions).0.2
        (record c { subscriptions = (added id path handler c.subscriptions).1 }))

  unless :
      (b : Bool) (r : Subscribed × Client H)
      → Entered r.1
      → Entered (if b then (refused_subscription, c) else r).1
  unless true r h = inl refl
  unless false r h = h

  subscribed_on : (k : Key) → Entered (subscribe_on options id path handler c k).1
  unfolding add
  subscribed_on none = inl refl
  subscribed_on (some topic) =
      unless
        (not c.is_started
          || not (validate_topic options.direction c.extension_topics topic true)
          || not (validate_agv_id path.manufacturer path.serial_number true))
        (enter_subscription options (add id path handler c.subscriptions) c)
        (entered
          (assert_mqtt_topic_utf8_count (mqtt_topic_utf8_length c.subscriptions.format path)))

  pub subscribe_topic-changes : Entered (subscribe_topic options id path handler c).1
  unfolding subscribe_topic
  subscribe_topic-changes = subscribed_on path.topic

module _ {H : Type 0} (id : String) (c : Client H) where
  abbrev pub Left : Client H → Type 0
  Left after =
      (after ≡ c)
      ⊎ ((ps : List Packet) × (after
            ≡ record c { subscriptions = (remove id c.subscriptions).1; packets = ps }))

  withdrawn :
      (r : Removed H)
      → (ps : List Packet) × ((withdraw r c).1 ≡ record c { subscriptions = r.1; packets = ps })
  withdrawn (none, subscriptions) = (c.packets, refl)
  withdrawn (some (topic, requires_unsubscribe), subscriptions) =
      elim (Bool-cases (requires_unsubscribe && c.connected)) [
        | inl e ↦ (unsubscribe topic ∷ c.packets, simp e)
        | inr e ↦ (c.packets, simp e)
      ]

  started_or_not :
      (b : Bool)
      → Left (if not b then (refused_removal, c) else withdraw (remove id c.subscriptions) c).1
  started_or_not false = inl refl
  started_or_not true = inr (withdrawn (remove id c.subscriptions))

  pub unsubscribe_id-changes : Left (unsubscribe_id id c).1
  unfolding unsubscribe_id
  unsubscribe_id-changes = started_or_not c.is_started
