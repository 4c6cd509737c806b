-- ===== src/Mqtt/Client/States.antt =====
-- What the callback of `registerConnectionStateChange` of src/common/client.ts is told.
use vda_5050_lib_js.Common.{
  Bool, Bool-cases, List, [], false, if◌then◌else◌, inl, inr, map, refl, some, true, ◌++◌, ◌∷◌, ◌≡◌,
}
use vda_5050_lib_js.Mqtt.Client.Messages.{
  Client, ClientOptions, ConnectionState, offline, online, subscribe,
}
use vda_5050_lib_js.Mqtt.Client.Traffic.{publish_topic}
use vda_5050_lib_js.Mqtt.Client.Lifecycle.{
  Reachable, Step, connecting, create, created, disconnecting, emit_connection_state_change,
  extending, failing, followed, on_connect, on_error, on_offline, publishing,
  register_connection_state_change, register_extension_topic, registering, start, starting, stop,
  stopping, subscribing, unsubscribing,
}
use vda_5050_lib_js.Mqtt.Client.Published.{publish_topic-Kept}
use vda_5050_lib_js.Mqtt.Client.Changes.{subscribe_topic-changes, unsubscribe_id-changes}
use vda_5050_lib_js.Mqtt.Subscriptions.{clear, get_all}

-- Newest first: each report's previous state is the one that was reported before.
abbrev pub Chain : ConnectionState → List (ConnectionState × ConnectionState) → Type 0
Chain before [] = Unit
Chain before ((s, b) ∷ rest) = (s ≡ before) × Chain b rest

-- Nothing is told before there is a callback, and from then on the current state was told last.
abbrev pub Told : Bool → ConnectionState → List (ConnectionState × ConnectionState) → Type 0
Told has_callback current [] = (has_callback ≡ false)
Told has_callback current ((s, before) ∷ rest) =
    (has_callback ≡ true) × (s ≡ current) × Chain before rest

-- A client's callback has been told all changes.
abbrev pub IsTold : {H : Type 0} → Client H → Type 0
IsTold c = Told c.has_callback c.connection_state c.told_states

told-Chain :
    (has : Bool) (s : ConnectionState) (l : List (ConnectionState × ConnectionState))
    → Told has s l
    → Chain s l
told-Chain has s [] h = tt
told-Chain has s ((n, b) ∷ l) (e, same, t) = (same, t)

emitted :
    (has : Bool) (new_state s : ConnectionState) (l : List (ConnectionState × ConnectionState))
    → Told has s l
    → Told has new_state (if has then (new_state, s) ∷ l else l)
emitted true n s l h = (refl, refl, told-Chain true s l h)
emitted false n s [] h = refl
emitted false n s ((a, b) ∷ l) (e, same, t) = absurd (cc)

module _ {H : Type 0} where
  emit-IsTold :
      (s : ConnectionState) (c : Client H) → IsTold c → IsTold (emit_connection_state_change s c)
  unfolding emit_connection_state_change
  emit-IsTold s c h = emitted c.has_callback s c.connection_state c.told_states h

  register-IsTold : (c : Client H) → IsTold c → IsTold (register_connection_state_change c)
  unfolding register_connection_state_change
  register-IsTold c h = (refl, refl, told-Chain c.has_callback c.connection_state c.told_states h)

  connect-IsTold : (c : Client H) → IsTold c → IsTold (on_connect c)
  unfolding on_connect
  connect-IsTold c h =
      emit-IsTold online
        (record c {
          connected = true;
          packets = map (λ t. subscribe (some t)) (get_all c.subscriptions) ++ c.packets;
        })
        h

  offline-IsTold : (c : Client H) → IsTold c → IsTold (on_offline c)
  unfolding on_offline
  offline-IsTold c h = emit-IsTold offline (record c { connected = false }) h

  start-IsTold : (c : Client H) → IsTold c → IsTold (start c)
  unfolding start
  start-IsTold c h = elim (Bool-cases c.is_started) [
    | inl e ↦ simp (e, start) h
    | inr e ↦ simp (e, start) (connect-IsTold c h)
  ]

  stop-IsTold : (c : Client H) → IsTold c → IsTold (stop c)
  unfolding stop
  stop-IsTold c h = elim (Bool-cases c.is_started) [
    | inl e ↦
        simp (e, stop)
          (offline-IsTold (record c { is_started = false; subscriptions = clear c.subscriptions })
            h)
    | inr e ↦ simp (e, stop) h
  ]

  kept-IsTold :
      (c d : Client H)
      → d.connection_state ≡ c.connection_state
      → d.has_callback ≡ c.has_callback
      → d.told_states ≡ c.told_states
      → IsTold c
      → IsTold d
  kept-IsTold c d es eb et h = rw (es, eb, et) h

  Step-IsTold : (options : ClientOptions) (c d : Client H) → Step options c d → IsTold c → IsTold d
  unfolding register_extension_topic on_error
  Step-IsTold options _ _ (subscribing c id path handler) h =
      elim (subscribe_topic-changes options id path handler c) [
        | inl e ↦ rw e h
        | inr (ps, e) ↦ rw e h
      ]
  Step-IsTold options _ _ (unsubscribing c id) h = elim (unsubscribe_id-changes id c) [
    | inl e ↦ rw e h
    | inr (ps, e) ↦ rw e h
  ]
  Step-IsTold options _ _ (publishing c now topic subject timestamp content retain drop_if_offline)
        h =
      let (_, es, eb, et) =
        publish_topic-Kept options now topic subject timestamp content retain drop_if_offline c in
      kept-IsTold c
        (publish_topic options now topic subject timestamp content retain drop_if_offline c).1 es eb
        et h
  Step-IsTold options _ _ (registering c) h = register-IsTold c h
  Step-IsTold options _ _ (extending c topic as_inbound as_outbound validator) h = h
  Step-IsTold options _ _ (connecting c) h = connect-IsTold c h
  Step-IsTold options _ _ (disconnecting c) h = offline-IsTold c h
  Step-IsTold options _ _ (failing c) h = emit-IsTold offline c h
  Step-IsTold options _ _ (starting c) h = start-IsTold c h
  Step-IsTold options _ _ (stopping c) h = stop-IsTold c h

  -- In every run of a client, its callback is told nothing before it is registered, and from then
  -- on every change of the connection state in its order: each report names the state that the
  -- report before named, and the last one the current state.
  pub Reachable-IsTold : (options : ClientOptions) (c : Client H) → Reachable options c → IsTold c
  unfolding create
  Reachable-IsTold options _ (created format) = refl
  Reachable-IsTold options _ (followed b c r step) =
      Step-IsTold options b c step (Reachable-IsTold options b r)
