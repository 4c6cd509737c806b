-- ===== src/Mqtt/Client/Constructed.antt =====
-- What the checks of its options give a client that the constructor of src/common/client.ts makes.
use mathlib.Core.Option
use Prim.Native.String
use vda_5050_lib_js.Common.{
  Bool, Bool-cases, Option, String, ap, arith, eq_Bool, eq_Option, eq_String, eq_of_==, eq_ℕ, false,
  inl, inr, none, refl, some, sym, true, ◌==◌, ◌∙◌, ◌≡◌,
}
use vda_5050_lib_js.Vda.{eq_AgvId}
use vda_5050_lib_js.Mqtt.Topics.{
  TopicFormat, compile_mqtt_topic, construct_mqtt_topic, deconstruct_mqtt_topic, major_of,
}
use vda_5050_lib_js.Mqtt.Topics.Levels.{NoSlash}
use vda_5050_lib_js.Mqtt.Client.{Topic, is_valid_topic_level, validate_topic}
use vda_5050_lib_js.Mqtt.Client.Messages.{Client, is_valid_vda_version, validate_agv_id}
use vda_5050_lib_js.Mqtt.Client.Lifecycle.{create}
use vda_5050_lib_js.Mqtt.Client.Options.{
  GivenOptions, TransportOptions, broker_url_of, construct, construct_from, format_of_fields,
  given_text, topic_format_of, validate_fields, validate_options, validate_rest, validate_version,
}
use vda_5050_lib_js.Mqtt.Client.Inbound.{valid_id-NoSlash}
use vda_5050_lib_js.Mqtt.Client.Directions.{valid-NoSlash, valid_topic-NoSlash}
use vda_5050_lib_js.Mqtt.Topics.RoundTrip.{deconstruct-construct}
use vda_5050_lib_js.Common.Map.{Map}

-- The options pass their checks, and the format of the topics can be compiled.
pub record IsGiven (options : GivenOptions) (f : TopicFormat) : Type 0 where
  pub name : String
  pub version : String
  pub has_name : options.interface_name ≡ some name
  pub has_version : options.vda_version ≡ some version
  pub is_level : is_valid_topic_level name ≡ true
  pub is_known : is_valid_vda_version version ≡ true
  pub compiles : compile_mqtt_topic (topic_format_of options.transport) name version ≡ some f

-- Each known version starts with its major version.
known-NoSlash :
    (version : String) → is_valid_vda_version version ≡ true → NoSlash (major_of version)
unfolding is_valid_vda_version
known-NoSlash version h = elim (Bool-cases (version == "1.1.0")) [
  | inl e ↦ at "1.1.0" e (refl, (refl, tt))
  | inr n0 ↦ elim (Bool-cases (version == "1.1")) [
    | inl e ↦ at "1.1" e (refl, (refl, tt))
    | inr n1 ↦ elim (Bool-cases (version == "2.0")) [
      | inl e ↦ at "2.0" e (refl, (refl, tt))
      | inr n2 ↦ elim (Bool-cases (version == "2.0.0")) [
        | inl e ↦ at "2.0.0" e (refl, (refl, tt))
        | inr n3 ↦ elim (Bool-cases (version == "2.1")) [
          | inl e ↦ at "2.1" e (refl, (refl, tt))
          | inr n4 ↦ elim (Bool-cases (version == "2.1.0")) [
            | inl e ↦ at "2.1.0" e (refl, (refl, tt))
            | inr n5 ↦ absurd (ground arith)
          ]
        ]
      ]
    ]
  ]
]
  where
    at : (v : String) → (version == v) ≡ true → NoSlash (major_of v) → NoSlash (major_of version)
    at v e n = rw (eq_of_== version v e) n

checked-version :
    (v : Option String)
    → validate_version v ≡ none
    → (version : String) × (v ≡ some version) × (is_valid_vda_version version ≡ true)
checked-version none h = absurd (cc)
checked-version (some version) h = elim (Bool-cases (is_valid_vda_version version)) [
  | inl known ↦ (version, refl, known)
  | inr unknown ↦
      let t : some (String.◌++◌ "Vda " (String.◌++◌ version " Version not supported")) ≡ none =
        simp unknown at h in
      absurd (cc)
]

checked-rest : (url v : Option String) → validate_rest url v ≡ none → validate_version v ≡ none
checked-rest none v h = absurd (cc)
checked-rest (some url) v h = h

checked-fields :
    (n : Option String) (t : Option TransportOptions) (v : Option String)
    → validate_fields n t v ≡ none
    → (name : String) × (n ≡ some name)
      × (is_valid_topic_level name ≡ true)
      × (validate_version v ≡ none)
checked-fields none t v h = absurd (cc)
checked-fields (some name) t v h = elim (Bool-cases (is_valid_topic_level name)) [
  | inl level ↦
      let rest : validate_rest (given_text (broker_url_of t)) v ≡ none = simp level at h in
      (name, refl, level, checked-rest (given_text (broker_url_of t)) v rest)
  | inr illegal ↦
      let u : some "ClientOption interfaceName is not a valid MQTT topic level" ≡ none =
        simp illegal at h in
      absurd (cc)
]

constructed_from :
    {H : Type 0} (message : Option String) (format : Option TopicFormat) (c : Client H)
    → construct_from message format ≡ some c
    → (message ≡ none) × (f : TopicFormat) × (format ≡ some f) × (c ≡ create f)
constructed_from (some message) format c e = absurd (cc)
constructed_from none none c e = absurd (cc)
constructed_from none (some f) c e = (refl, f, refl, cc)

compiles_as :
    (n : Option String) (t : Option TransportOptions) (v : Option String) (name version : String)
    (f : TopicFormat)
    → n ≡ some name
    → v ≡ some version
    → format_of_fields n t v ≡ some f
    → compile_mqtt_topic (topic_format_of t) name version ≡ some f
compiles_as n t v name version f en ev e =
    sym (ap (λ x. format_of_fields x t v) en ∙ ap (λ y. format_of_fields (some name) t y) ev) ∙ e

-- A client that the constructor makes is new, with a format compiled from valid options.
construct-IsGiven :
    {H : Type 0} (options : GivenOptions) (c : Client H)
    → construct options ≡ some c
    → (f : TopicFormat) × (c ≡ create f) × IsGiven options f
unfolding construct validate_options
construct-IsGiven options c e =
    let n = options.interface_name in
    let t = options.transport in
    let v = options.vda_version in
    let (fine, f, made, same) =
      constructed_from (validate_options options) (format_of_fields n t v) c e in
    let (name, has_name, level, rest) = checked-fields n t v fine in
    let (version, has_version, known) = checked-version v rest in
    (
      f,
      same,
      record {
        name = name;
        version = version;
        has_name = has_name;
        has_version = has_version;
        is_level = level;
        is_known = known;
        compiles = compiles_as n t v name version f has_name has_version made;
      },
    )

-- Every client that the constructor makes gets the AGV identifier and the topic back from the MQTT
-- topic that it publishes on, where its topic format has places for them, for each identifier and
-- topic that it lets pass.
pub construct-deconstructs :
    {H : Type 0} (options : GivenOptions) (c : Client H) (direction : Topic → Bool → Bool)
    (extensions : Map String (Bool × Bool)) (m s topic : String)
    → construct options ≡ some c
    → validate_agv_id (some m) (some s) false ≡ true
    → validate_topic direction extensions topic false ≡ true
    → deconstruct_mqtt_topic c.subscriptions.format
        (construct_mqtt_topic c.subscriptions.format m s topic)
      ≡ (
        Option.map (λ _. m) c.subscriptions.format.manufacturer_index,
        Option.map (λ _. s) c.subscriptions.format.serial_number_index,
        some topic,
      )
unfolding create
construct-deconstructs options c direction extensions m s topic made id_passes topic_passes =
    let (f, same, g) = construct-IsGiven options c made in
    let (level_m, level_s) = valid_id-NoSlash m s id_passes in
    rw same (
      deconstruct-construct (topic_format_of options.transport) g.name g.version f m s topic
        g.compiles (valid-NoSlash g.name g.is_level) (known-NoSlash g.version g.is_known) level_m
        level_s (valid_topic-NoSlash direction extensions topic false topic_passes))
