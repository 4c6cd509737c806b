-- ===== src/Mqtt/Topics/RoundTrip.antt =====
-- Deconstructing a topic gives back what it was constructed from.
use mathlib.Core.Option
use vda_5050_lib_js.Common.{
  All, Bool-cases, List, Option, Option-cases, String, ap, get_elem?, inl, inr, none, refl, some, ℕ,
  ◌∙◌, ◌≡◌,
}
use vda_5050_lib_js.Mqtt.Topics.{
  TopicFormat, any_misplaced, compile_levels, compile_mqtt_topic, construct_mqtt_topic,
  deconstruct_mqtt_topic, fill_levels, format_of, index_of_level, join, level_at, major_of, split,
}
use vda_5050_lib_js.Mqtt.Topics.Levels.{NoSlash, split-NoSlash, split-join}
use vda_5050_lib_js.Mqtt.Topics.Filled.{
  fill-NoSlash, fill-manufacturer, fill-nonempty, fill-serial_number, fill-topic,
}

compiled :
    (ls : List String) (interface_name version : String) (f : TopicFormat)
    → compile_levels ls interface_name version ≡ some f
    → (i : ℕ) × (index_of_level "%topic%" ls ≡ some i) × (format_of ls interface_name version i ≡ f)
unfolding compile_levels
compiled ls interface_name version f e = elim (Bool-cases (any_misplaced ls)) [
  | inl bad ↦ let t : none ≡ some f = simp bad at e in absurd (cc)
  | inr good ↦
      let made : Option.map (format_of ls interface_name version) (index_of_level "%topic%" ls)
          ≡ some f =
        simp good at e in
      elim (Option-cases (index_of_level "%topic%" ls)) [
        | inl missing ↦ let t : none ≡ some f = simp missing at made in absurd (cc)
        | inr (i, found) ↦
            let t : some (format_of ls interface_name version i) ≡ some f = simp found at made in
            (i, found, cc)
      ]
]

level_at-filled :
    (o : Option ℕ) (v : String) (ks : List String)
    → ((j : ℕ) → o ≡ some j → get_elem? ks j ≡ some v)
    → level_at o ks ≡ Option.map (λ _. v) o
level_at-filled none v ks h = refl
level_at-filled (some j) v ks h = h j refl

module _ (ls : List String) (interface_name version : String) (n : ℕ) where
  abbrev format : TopicFormat
  format = format_of ls interface_name version n

  deconstruct-format :
      (m s t : String)
      → All NoSlash ls
      → index_of_level "%topic%" ls ≡ some n
      → NoSlash interface_name
      → NoSlash (major_of version)
      → NoSlash m
      → NoSlash s
      → NoSlash t
      → deconstruct_mqtt_topic format (construct_mqtt_topic format m s t) ≡ (
        Option.map (λ _. m) format.manufacturer_index,
        Option.map (λ _. s) format.serial_number_index,
        some t,
      )
  unfolding deconstruct_mqtt_topic construct_mqtt_topic
  deconstruct-format m s t a e hi hv hm hs ht =
      let filled = fill_levels format m s t in
      let back : split (join filled) ≡ filled =
        split-join filled (fill-nonempty ls interface_name version n m s t e)
          (fill-NoSlash ls interface_name version n m s t a hi hv hm hs ht) in
      let one =
        level_at-filled format.manufacturer_index m filled
          (λ j k. fill-manufacturer ls interface_name version n m s t j e k) in
      let two =
        level_at-filled format.serial_number_index s filled
          (λ j k. fill-serial_number ls interface_name version n m s t j e k) in
      let three = fill-topic ls interface_name version n m s t e in
      ap
        (λ ks. (
          level_at format.manufacturer_index ks,
          level_at format.serial_number_index ks,
          get_elem? ks n,
        ))
        back
      ∙ (λ i. (one i, two i, three i))

-- An inbound topic is deconstructed into the manufacturer, the serial number and the communication
-- topic that it was constructed from, where the format has places for them, if none of the names
-- contains a separator.
pub deconstruct-construct :
    (topic_format interface_name version : String) (f : TopicFormat) (m s t : String)
    → compile_mqtt_topic topic_format interface_name version ≡ some f
    → NoSlash interface_name
    → NoSlash (major_of version)
    → NoSlash m
    → NoSlash s
    → NoSlash t
    → deconstruct_mqtt_topic f (construct_mqtt_topic f m s t) ≡ (
      Option.map (λ _. m) f.manufacturer_index,
      Option.map (λ _. s) f.serial_number_index,
      some t,
    )
unfolding compile_mqtt_topic
deconstruct-construct topic_format interface_name version f m s t e hi hv hm hs ht =
    let (n, found, same) = compiled (split topic_format) interface_name version f e in
    rw⁻¹ same (
      deconstruct-format (split topic_format) interface_name version n m s t
        (split-NoSlash topic_format) found hi hv hm hs ht)
