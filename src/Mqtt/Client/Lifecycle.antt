-- ===== src/Mqtt/Client/Lifecycle.antt =====
-- The life of a client: its constructor, `start`, `stop`, `reset`, `_emitConnectionStateChange`,
-- `registerConnectionStateChange`, `registerExtensionTopic` and the listeners of `_connect` of
-- src/common/client.ts. A start that cannot connect is not a step here, and a
-- stop is a single one.
use vda_5050_lib_js.Common.Map
use vda_5050_lib_js.Common.{
  Bool, Option, String, [], eq_Bool, eq_Option, eq_String, eq_ℕ, false, if◌then◌else◌, map, not,
  some, true, ◌++◌, ◌∷◌,
}
use vda_5050_lib_js.Vda.{AgvId, Json, eq_AgvId}
use vda_5050_lib_js.Common.Map.{Map}
use vda_5050_lib_js.Mqtt.Topics.{TopicFormat}
use vda_5050_lib_js.Mqtt.Client.Messages.{
  Client, ClientOptions, ConnectionState, TopicObject, offline, online, subscribe,
}
use vda_5050_lib_js.Mqtt.Client.Traffic.{publish_topic, subscribe_topic, unsubscribe_id}
use vda_5050_lib_js.Mqtt.Subscriptions.{Path3, clear, get_all}

module _ {H : Type 0} where
  unfoldable pub emit_connection_state_change : ConnectionState → Client H → Client H
  emit_connection_state_change new_state c = record c {
    connection_state = new_state;
    told_states =
        if c.has_callback then (new_state, c.connection_state) ∷ c.told_states else c.told_states;
  }

  unfoldable pub register_connection_state_change : Client H → Client H
  unfolding emit_connection_state_change
  register_connection_state_change c =
      emit_connection_state_change c.connection_state (record c { has_callback = true })

  unfoldable pub register_extension_topic :
      String → Bool → Bool → (String → TopicObject → Bool) → Client H → Client H
  unfolding Map.set
  register_extension_topic topic as_inbound as_outbound validator c = record c {
    extension_topics = Map.set topic (as_inbound, as_outbound) c.extension_topics;
    extension_validators = Map.set topic validator c.extension_validators;
  }

  -- The listeners for "connect": the topics with handlers are subscribed again.
  unfoldable pub on_connect : Client H → Client H
  unfolding get_all emit_connection_state_change
  on_connect c = emit_connection_state_change online (record c {
    connected = true;
    packets = map (λ t. subscribe (some t)) (get_all c.subscriptions) ++ c.packets;
  })

  -- The listeners for "close" and "offline".
  unfoldable pub on_offline : Client H → Client H
  unfolding emit_connection_state_change
  on_offline c = emit_connection_state_change offline (record c { connected = false })

  -- The listener for "error", which may come while the connection is kept.
  unfoldable pub on_error : Client H → Client H
  unfolding emit_connection_state_change
  on_error c = emit_connection_state_change offline c

  -- The client after its constructor. The state that is passed as the previous one is never read.
  unfoldable pub create : TopicFormat → Client H
  create format = record {
    is_started = false;
    connected = false;
    connection_state = offline;
    has_callback = false;
    told_states = [];
    header_ids = [];
    extension_topics = [];
    extension_validators = [];
    subscriptions = record { format = format; subscriptions = []; subscription_ids = [] };
    packets = [];
  }

  unfoldable pub start : Client H → Client H
  unfolding on_connect
  start c = if c.is_started then c else record (on_connect c) { is_started = true }

  -- `stop`, with `_disconnect` and `reset`: header ids and extension topics are kept.
  unfoldable pub stop : Client H → Client H
  unfolding on_offline clear
  stop c =
      if not c.is_started
      then c
      else on_offline (record c { is_started = false; subscriptions = clear c.subscriptions })

  -- Calls of the client and events of the connection, in any order.
  pub data Step (options : ClientOptions) : Client H → Client H → Type 0 where
    subscribing :
        (c : Client H) (id : String) (path : Path3) (handler : H)
        → Step options c (subscribe_topic options id path handler c).1
    unsubscribing : (c : Client H) (id : String) → Step options c (unsubscribe_id id c).1
    publishing :
        (c : Client H) (now topic : String) (subject : AgvId) (timestamp : Option String)
        (content : Json) (retain drop_if_offline : Bool)
        → Step options c
            (publish_topic options now topic subject timestamp content retain drop_if_offline c).1
    registering : (c : Client H) → Step options c (register_connection_state_change c)
    extending :
        (c : Client H) (topic : String) (as_inbound as_outbound : Bool)
        (validator : String → TopicObject → Bool)
        → Step options c (register_extension_topic topic as_inbound as_outbound validator c)
    connecting : (c : Client H) → Step options c (on_connect c)
    disconnecting : (c : Client H) → Step options c (on_offline c)
    failing : (c : Client H) → Step options c (on_error c)
    starting : (c : Client H) → Step options c (start c)
    stopping : (c : Client H) → Step options c (stop c)

  pub data Reachable (options : ClientOptions) : Client H → Type 0 where
    created : (format : TopicFormat) → Reachable options (create format)
    followed : (c d : Client H) → Reachable options c → Step options c d → Reachable options d
