-- ===== src/Mqtt/Client/Versions.antt =====
-- The versions that a client of src/common/client.ts is configured with, and those it publishes.
use vda_5050_lib_js.Common.{
  All, All-In, Bool, In, List, Option, String, [], ap, arith, eq_Bool, eq_Option, eq_String, eq_ℕ,
  false, refl, some, true, ◌&&◌, ◌++◌, ◌==◌, ◌∙◌, ◌∷◌, ◌≡◌, ◌≢◌,
}
use vda_5050_lib_js.Vda.{AgvId, Json, eq_AgvId}
use vda_5050_lib_js.Mqtt.Client.{
  Topic, connection, factsheet, instant_actions, order, standard_topic, state, visualization,
}
use vda_5050_lib_js.Mqtt.Client.Messages.{
  Client, ClientOptions, Message, Packet, TopicObject, has_schema, is_valid_as,
  is_valid_vda_version, validate_topic_object,
}
use vda_5050_lib_js.Mqtt.Client.Traffic.{Published, accepted, dropped, publish_topic, refused}
use vda_5050_lib_js.Mqtt.Client.Published.{numbered, publish_topic_iff, sent}

short_versions : (t : Topic) → All (λ v. has_schema t v ≡ false) ("1.1" ∷ "2.0" ∷ "2.1" ∷ [])
unfolding has_schema
short_versions connection = (refl, (refl, (refl, tt)))
short_versions factsheet = (refl, (refl, (refl, tt)))
short_versions instant_actions = (refl, (refl, (refl, tt)))
short_versions order = (refl, (refl, (refl, tt)))
short_versions state = (refl, (refl, (refl, tt)))
short_versions visualization = (refl, (refl, (refl, tt)))

known_versions : All (λ v. is_valid_vda_version v ≡ true) ("1.1" ∷ "2.0" ∷ "2.1" ∷ [])
unfolding is_valid_vda_version
known_versions = (refl, (refl, (refl, tt)))

not_valid :
    {H : Type 0} (options : ClientOptions) (c : Client H) (topic : String) (t : Topic)
    (obj : TopicObject)
    → standard_topic topic ≡ some t
    → has_schema t options.vda_version ≡ false
    → validate_topic_object options c (some topic) obj ≡ false
unfolding validate_topic_object
not_valid options c topic t obj et e =
    let same = obj.header.version == options.vda_version in
    ap (λ o. same && is_valid_as options c topic obj o) et
    ∙ ap (λ k. same && (k && options.schema options.vda_version t obj)) e
    ∙ (ground arith)

not_sent : (p : Published) (l : List Packet) → ((m : Message) → p ≢ accepted m) → sent p ++ l ≡ l
not_sent refused l h = refl
not_sent dropped l h = refl
not_sent (accepted m) l h = absurd (h m refl)

-- A client with one of the versions "1.1", "2.0" and "2.1", which the check of its options accepts,
-- cannot publish on any topic of the standard while outbound objects are validated: every
-- publication is refused, and no packet is sent.
pub publish_topic-short_version :
    {H : Type 0} (options : ClientOptions) (now topic : String) (t : Topic) (subject : AgvId)
    (timestamp : Option String) (content : Json) (retain drop_if_offline : Bool) (c : Client H)
    → In options.vda_version ("1.1" ∷ "2.0" ∷ "2.1" ∷ [])
    → options.validates_outbound ≡ true
    → standard_topic topic ≡ some t
    → (is_valid_vda_version options.vda_version ≡ true)
      × ((m : Message)
          → (publish_topic options now topic subject timestamp content retain drop_if_offline c).0
            ≢ accepted m)
      × ((publish_topic options now topic subject timestamp content retain drop_if_offline
            c).1.packets
          ≡ c.packets)
publish_topic-short_version options now topic t subject timestamp content retain drop_if_offline c h
      eo et =
    let (accept, packets, _) =
      publish_topic_iff options now topic subject timestamp content retain drop_if_offline c in
    let invalid =
      not_valid options c topic t
        (numbered options now topic subject timestamp content retain drop_if_offline c) et
        (All-In (λ v. has_schema t v ≡ false) options.vda_version ("1.1" ∷ "2.0" ∷ "2.1" ∷ []) h
          (short_versions t)) in
    let no_message : (m : Message)
        → (publish_topic options now topic subject timestamp content retain drop_if_offline c).0
          ≢ accepted m =
      λ m e. let (_, valid, _, _, _) = (accept m).0 e in ground arith in
    (
      All-In (λ v. is_valid_vda_version v ≡ true) options.vda_version ("1.1" ∷ "2.0" ∷ "2.1" ∷ []) h
          known_versions,
      no_message,
      packets ∙ not_sent _ c.packets no_message,
    )
