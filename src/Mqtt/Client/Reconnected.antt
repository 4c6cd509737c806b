-- ===== src/Mqtt/Client/Reconnected.antt =====
-- What is subscribed again when a client of src/common/client.ts connects.
use vda_5050_lib_js.Common.Map
use vda_5050_lib_js.Common.{
  Bool-cases, In, List, String, eq_Bool, eq_Option, eq_String, eq_ℕ, inl, inr, map, refl, some,
  ◌++◌, ◌≡◌,
}
use vda_5050_lib_js.Vda.{eq_AgvId}
use vda_5050_lib_js.Common.Map.{Map}
use vda_5050_lib_js.Mqtt.Client.Messages.{Client, ClientOptions, Packet, subscribe}
use vda_5050_lib_js.Mqtt.Client.Lifecycle.{
  Reachable, Step, connecting, create, created, disconnecting, emit_connection_state_change,
  extending, failing, followed, on_connect, on_error, on_offline, publishing,
  register_connection_state_change, register_extension_topic, registering, start, starting, stop,
  stopping, subscribing, unsubscribing,
}
use vda_5050_lib_js.Mqtt.Client.Published.{publish_topic-Kept}
use vda_5050_lib_js.Mqtt.Client.Changes.{subscribe_topic-changes, unsubscribe_id-changes}
use vda_5050_lib_js.Mqtt.Subscriptions.{Path3, get_all, get_mqtt_topic, handlers_at}
use vda_5050_lib_js.Mqtt.Subscriptions.Topics.{
  HasTopics, In-map, added-HasTopics, clear-HasTopics, get_all-In, removed-HasTopics,
}

Step-HasTopics :
    {H : Type 0} (options : ClientOptions) (c d : Client H)
    → Step options c d
    → HasTopics c.subscriptions
    → HasTopics d.subscriptions
unfolding register_extension_topic register_connection_state_change on_connect on_offline on_error
    start stop
Step-HasTopics options _ _ (subscribing c id path handler) h =
    elim (subscribe_topic-changes options id path handler c) [
      | inl e ↦ rw e h
      | inr (ps, e) ↦ rw e (added-HasTopics c.subscriptions h id path handler)
    ]
Step-HasTopics options _ _ (unsubscribing c id) h = elim (unsubscribe_id-changes id c) [
  | inl e ↦ rw e h
  | inr (ps, e) ↦ rw e (removed-HasTopics c.subscriptions h id)
]
Step-HasTopics options _ _ (publishing c now topic subject timestamp content retain drop_if_offline)
      h =
    let (e, _, _, _) =
      publish_topic-Kept options now topic subject timestamp content retain drop_if_offline c in
    rw e h
Step-HasTopics options _ _ (registering c) h = h
Step-HasTopics options _ _ (extending c topic as_inbound as_outbound validator) h = h
Step-HasTopics options _ _ (connecting c) h = h
Step-HasTopics options _ _ (disconnecting c) h = h
Step-HasTopics options _ _ (failing c) h = h
Step-HasTopics options _ _ (starting c) h = elim (Bool-cases c.is_started) [
  | inl e ↦ simp (e, start) h
  | inr e ↦ simp (e, start) h
]
Step-HasTopics options _ _ (stopping c) h = elim (Bool-cases c.is_started) [
  | inl e ↦ simp (e, stop) (clear-HasTopics c.subscriptions h)
  | inr e ↦ simp (e, stop) h
]

Reachable-HasTopics :
    {H : Type 0} (options : ClientOptions) (c : Client H)
    → Reachable options c
    → HasTopics c.subscriptions
unfolding create handlers_at Map.get
Reachable-HasTopics options _ (created format) = λ q x i. absurd i
Reachable-HasTopics options _ (followed b c r step) =
    Step-HasTopics options b c step (Reachable-HasTopics options b r)

-- In every run of a client, when it connects, also again after a lost connection, the packets that
-- it newly hands over contain a subscription of the MQTT topic of every path that has a handler.
pub on_connect-subscribes :
    {H : Type 0} (options : ClientOptions) (c : Client H) (q : Path3) (x : String × H)
    → Reachable options c
    → In x (handlers_at q c.subscriptions.subscriptions).handlers
    → (again : List Packet) × ((on_connect c).packets ≡ again ++ c.packets)
      × In (subscribe (some (get_mqtt_topic c.subscriptions.format q))) again
unfolding on_connect emit_connection_state_change
on_connect-subscribes options c q x r i =
    let topic = get_mqtt_topic c.subscriptions.format q in
    let known = get_all-In topic x q c.subscriptions i (Reachable-HasTopics options c r q x i) in
    (
      map (λ t. subscribe (some t)) (get_all c.subscriptions),
      refl,
      In-map (λ t. subscribe (some t)) topic (get_all c.subscriptions) known,
    )
