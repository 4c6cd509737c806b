-- ===== src/Mqtt/Client/HeaderIds.antt =====
-- The header ids of publications: `_nextHeaderId` and `publishTopic` of src/common/client.ts, over
-- many publications. They count on each topic, as 32-bit unsigned integers.
use mathlib.Core.Option
use Prim.Native.Nat.{◌^◌}
use vda_5050_lib_js.Common.Map
use vda_5050_lib_js.Common.{
  Bool, Bool-cases, List, Option, String, [], ap, arith, eq_Bool, eq_Option, eq_String, eq_of_==,
  eq_ℕ, false, if◌then◌else◌, inl, inr, ltb, ne_of_==, refl, some, sym, ℕ, ◌%◌, ◌&&◌, ◌+◌, ◌==◌,
  ◌∙◌, ◌∷◌, ◌≡◌, ◌≢◌,
}
use vda_5050_lib_js.Vda.{AgvId, Json, eq_AgvId}
use vda_5050_lib_js.Common.Map.{Map, get-set_ne, get-set_self}
use vda_5050_lib_js.Mqtt.Client.{next_header_id, validate_topic}
use vda_5050_lib_js.Mqtt.Client.Messages.{
  Client, ClientOptions, Message, validate_agv_id, with_object_header,
}
use vda_5050_lib_js.Mqtt.Client.Traffic.{Published, accepted, publish_topic}
use vda_5050_lib_js.Mqtt.Client.Published.{publish_topic-KeepsChecks, publish_topic_iff}

-- A call of `publishTopic`, with the time at which it is made.
pub record Publication : Type 0 where
  pub now : String
  pub topic : String
  pub subject : AgvId
  pub timestamp : Option String
  pub content : Json
  pub retain : Bool
  pub drop_if_offline : Bool

wrapped : (n : ℕ) → (if ltb (n % 2 ^ 32) 4294967295 then n % 2 ^ 32 + 1 else 0) ≡ (n + 1) % 2 ^ 32
wrapped n = ground arith

abbrev following : ℕ → ℕ
following id = if ltb id 4294967295 then id + 1 else 0

abbrev next_id : String → Map String ℕ → ℕ
next_id topic ids = Option.get_or (Map.get topic ids) 0

next_self :
    (topic : String) (ids : Map String ℕ)
    → next_id topic (next_header_id topic ids).1 ≡ following (next_id topic ids)
unfolding next_header_id
next_self topic ids =
    ap (λ o. Option.get_or o 0) (Map.get-set_self topic (following (next_id topic ids)) ids)

next_other :
    (topic t : String) (ids : Map String ℕ)
    → t ≢ topic
    → next_id topic (next_header_id t ids).1 ≡ next_id topic ids
unfolding next_header_id
next_other topic t ids h =
    ap (λ o. Option.get_or o 0) (Map.get-set_ne t topic (following (next_id t ids)) ids h)

module _ {H : Type 0} (options : ClientOptions) where
  abbrev pub publish_one : Publication → Client H → Published × Client H
  publish_one p =
      publish_topic options p.now p.topic p.subject p.timestamp p.content p.retain p.drop_if_offline

  -- After these publications, the last one first.
  abbrev pub publish_all : List Publication → Client H → Client H
  publish_all [] c = c
  publish_all (p ∷ ps) c = (publish_one p (publish_all ps c)).1

  -- The client is started, and the topic and the subject of the publication are valid.
  abbrev pub takes_id : Client H → Publication → Bool
  takes_id c p =
      c.is_started
      && validate_topic options.direction c.extension_topics p.topic false
      && validate_agv_id (some p.subject.manufacturer) (some p.subject.serial_number) false

  -- The publications on the topic that take an id, whether or not they are sent.
  abbrev pub ids_taken : Client H → String → List Publication → ℕ
  ids_taken c topic [] = 0
  ids_taken c topic (p ∷ ps) =
      if takes_id c p && p.topic == topic then ids_taken c topic ps + 1 else ids_taken c topic ps

  module _ (c : Client H) (fresh : c.header_ids ≡ []) where
    publish_all-checks :
        (ps : List Publication)
        → ((publish_all ps c).is_started ≡ c.is_started)
          × ((publish_all ps c).extension_topics ≡ c.extension_topics)
    publish_all-checks [] = (refl, refl)
    publish_all-checks (p ∷ ps) =
        let (started, topics) = publish_all-checks ps in
        let (started', topics') =
          publish_topic-KeepsChecks options p.now p.topic p.subject p.timestamp p.content p.retain
            p.drop_if_offline (publish_all ps c) in
        (started' ∙ started, topics' ∙ topics)

    takes_id-publish_all :
        (ps : List Publication) (p : Publication) → takes_id (publish_all ps c) p ≡ takes_id c p
    takes_id-publish_all ps p =
        let (started, topics) = publish_all-checks ps in
        let valid =
          validate_agv_id (some p.subject.manufacturer) (some p.subject.serial_number) false in
        ap
          (λ b.
            b
            && validate_topic options.direction (publish_all ps c).extension_topics p.topic false
            && valid)
          started
        ∙ ap (λ e. c.is_started && validate_topic options.direction e p.topic false && valid) topics

    header_ids_lem :
        (ps : List Publication) (p : Publication)
        → (publish_all (p ∷ ps) c).header_ids ≡ (
            if takes_id c p
            then (next_header_id p.topic (publish_all ps c).header_ids).1
            else (publish_all ps c).header_ids)
    header_ids_lem ps p =
        let d = publish_all ps c in
        let (_, _, ids) =
          publish_topic_iff options p.now p.topic p.subject p.timestamp p.content p.retain
            p.drop_if_offline d in
        ids
        ∙ ap (λ b. if b then (next_header_id p.topic d.header_ids).1 else d.header_ids)
            (takes_id-publish_all ps p)

    next_is :
        (topic : String) (ps : List Publication)
        → next_id topic (publish_all ps c).header_ids ≡ ids_taken c topic ps % 2 ^ 32
    unfolding Map.get
    next_is topic [] = ap (next_id topic) fresh ∙ omega arith
    next_is topic (p ∷ ps) =
        let d = publish_all ps c in
        ap (next_id topic) (header_ids_lem ps p) ∙ (elim (Bool-cases (takes_id c p)) [
          | inr none_taken ↦ simp none_taken (next_is topic ps)
          | inl takes ↦ elim (Bool-cases (p.topic == topic)) [
            | inl same ↦
                simp (takes, same)
                  (ap (λ t. next_id t (next_header_id p.topic d.header_ids).1)
                      (sym (eq_of_== p.topic topic same))
                    ∙ next_self p.topic d.header_ids
                    ∙ ap (λ t. following (next_id t d.header_ids)) (eq_of_== p.topic topic same)
                    ∙ ap following (next_is topic ps)
                    ∙ wrapped (ids_taken c topic ps))
            | inr other ↦
                simp (takes, other)
                  (next_other topic p.topic d.header_ids (ne_of_== p.topic topic other)
                    ∙ next_is topic ps)
          ]
        ])

-- In a client that has used no header id, the header id of a message that is handed over is the
-- number of the earlier publications on its topic with a valid topic and subject, all of them if
-- the client is started, with the wrap-around of a 32-bit unsigned integer. Publications that were
-- then refused for their object, or dropped while offline, count too, and those on other topics do
-- not.
pub publish_all-numbers :
    {H : Type 0} (options : ClientOptions) (c : Client H) (ps : List Publication) (p : Publication)
    (m : Message)
    → c.header_ids ≡ []
    → (publish_one options p (publish_all options ps c)).0 ≡ accepted m
    → m.payload.header.header_id ≡ ids_taken options c p.topic ps % 2 ^ 32
unfolding with_object_header
publish_all-numbers options c ps p m fresh e =
    let (accept, _, _) =
      publish_topic_iff options p.now p.topic p.subject p.timestamp p.content p.retain
        p.drop_if_offline (publish_all options ps c) in
    let (_, _, _, _, same) = (accept m).0 e in
    ap (λ (n : Message). n.payload.header.header_id) same ∙ next_is options c fresh p.topic ps
