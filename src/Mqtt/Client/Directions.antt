-- ===== src/Mqtt/Client/Directions.antt =====
-- Vehicles and the master control fit together, and a valid topic is a level of the MQTT topic.
use Prim.Native.Char.{Char, code}
use text.Mathlib.TextLemmas.{head-eq_of_cons-eq}
use vda_5050_lib_js.Common.Map
use vda_5050_lib_js.Common.{
  ==_of_eq, Bool, Bool-cases, Option-cases, String, ap, arith, eq_Bool, eq_Option, eq_String,
  eq_of_==, eq_ℕ, false, inl, inr, none, not, some, sym, true, ℕ, ◌&&◌, ◌==◌, ◌∙◌, ◌≡◌, ◌≢◌, ◌⊎◌,
}
use vda_5050_lib_js.Vda.{eq_AgvId}
use vda_5050_lib_js.Mqtt.Client.{
  Topic, agv_direction, is_illegal, is_valid_topic_level, master_control_direction, may_use,
  standard_topic, validate_topic,
}
use vda_5050_lib_js.Mqtt.Topics.Levels.{NoSlash}
use vda_5050_lib_js.Common.Map.{Map}

-- What one side may publish, the other may subscribe to.
directions_complement :
    (t : Topic) (inbound : Bool)
    → agv_direction t inbound ≡ master_control_direction t (not inbound)
unfolding agv_direction master_control_direction
directions_complement t inbound = ground arith

slash_code : (c : Char) → (String.◌∷◌ c String.[] == "/") ≡ true → code c ≡ 47
slash_code c e = ap code (head-eq_of_cons-eq (eq_of_== (String.◌∷◌ c String.[]) "/" e))

legal-NoSlash : (c : Char) → is_illegal c ≡ false → (String.◌∷◌ c String.[] == "/") ≡ false
legal-NoSlash c h = elim (Bool-cases (String.◌∷◌ c String.[] == "/")) [
  | inl e ↦ let k : code c ≡ 47 = slash_code c e in absurd (ground arith)
  | inr e ↦ e
]

pub valid-NoSlash : (s : String) → is_valid_topic_level s ≡ true → NoSlash s
unfolding is_valid_topic_level
valid-NoSlash String.[] h = tt
valid-NoSlash (String.◌∷◌ c s) h = elim (Bool-cases (is_illegal c)) [
  | inl e ↦ let t : false ≡ true = simp e at h in absurd (cc)
  | inr e ↦
      let rest : is_valid_topic_level s ≡ true = simp e at h in
      (legal-NoSlash c e, valid-NoSlash s rest)
]

pub valid_topic-NoSlash :
    (direction : Topic → Bool → Bool) (extensions : Map String (Bool × Bool)) (topic : String)
    (for_subscription : Bool)
    → validate_topic direction extensions topic for_subscription ≡ true
    → NoSlash topic
unfolding validate_topic
valid_topic-NoSlash direction extensions topic for_subscription h =
    elim (Bool-cases (is_valid_topic_level topic)) [
      | inl e ↦ valid-NoSlash topic e
      | inr e ↦ absurd (ground arith)
    ]

fits :
    (a b : Map String (Bool × Bool)) (topic : String) (t : Topic) (for_subscription : Bool)
    → standard_topic topic ≡ some t
    → validate_topic agv_direction a topic for_subscription
      ≡ validate_topic master_control_direction b topic (not for_subscription)
unfolding validate_topic
fits a b topic t for_subscription e =
    let one : may_use agv_direction (standard_topic topic) (Map.get topic a) for_subscription
        ≡ agv_direction t for_subscription =
      ap (λ o. may_use agv_direction o (Map.get topic a) for_subscription) e in
    let two : may_use master_control_direction (standard_topic topic) (Map.get topic b)
          (not for_subscription)
        ≡ master_control_direction t (not for_subscription) =
      ap (λ o. may_use master_control_direction o (Map.get topic b) (not for_subscription)) e in
    ap (λ m. not (topic == "") && is_valid_topic_level topic && m)
      (one ∙ directions_complement t for_subscription ∙ sym two)

-- None of the characters U+0000, "#" and "+", which MQTT reserves.
abbrev pub HasNoWildcard : String → Type 0
HasNoWildcard String.[] = Unit
HasNoWildcard (String.◌∷◌ c s) = (code c ≢ 0) × (code c ≢ 35) × (code c ≢ 43) × HasNoWildcard s

legal_code :
    (c : Char) (n : ℕ) → (code c ≡ n → is_illegal c ≡ true) → is_illegal c ≡ false → code c ≢ n
legal_code c n h legal e = let illegal = h e in absurd (cc)

valid-HasNoWildcard : (s : String) → is_valid_topic_level s ≡ true → HasNoWildcard s
unfolding is_valid_topic_level
valid-HasNoWildcard String.[] h = tt
valid-HasNoWildcard (String.◌∷◌ c s) h = elim (Bool-cases (is_illegal c)) [
  | inl e ↦ let t : false ≡ true = simp e at h in absurd (cc)
  | inr e ↦
      let rest : is_valid_topic_level s ≡ true = simp e at h in
      (
        legal_code c 0 (λ k. ground arith) e,
        legal_code c 35 (λ k. ground arith) e,
        legal_code c 43 (λ k. ground arith) e,
        valid-HasNoWildcard s rest,
      )
]

-- A single level of an MQTT topic, and no filter.
abbrev pub IsLevel : String → Type 0
IsLevel topic = (topic ≢ "") × NoSlash topic × HasNoWildcard topic

passes-IsLevel :
    (direction : Topic → Bool → Bool) (extensions : Map String (Bool × Bool)) (topic : String)
    (for_subscription : Bool)
    → (validate_topic direction extensions topic for_subscription ≡ false) ⊎ IsLevel topic
unfolding validate_topic
passes-IsLevel direction extensions topic for_subscription =
    elim (Bool-cases (validate_topic direction extensions topic for_subscription)) [
      | inl h ↦ inr (
        λ e. let empty = ==_of_eq topic "" e in absurd (ground arith),
        valid_topic-NoSlash direction extensions topic for_subscription h,
        valid-HasNoWildcard topic (ground arith),
      )
      | inr h ↦ inl h
    ]

fits_or_extends :
    (a b : Map String (Bool × Bool)) (topic : String) (for_subscription : Bool)
    → (standard_topic topic ≡ none)
      ⊎ (validate_topic agv_direction a topic for_subscription
          ≡ validate_topic master_control_direction b topic (not for_subscription))
fits_or_extends a b topic for_subscription = elim (Option-cases (standard_topic topic)) [
  | inl e ↦ inl e
  | inr (t, e) ↦ inr (fits a b topic t for_subscription e)
]

-- For every topic, of the standard or an extension: if it is of the standard, the vehicle's side may
-- publish on it exactly if the master control's side may subscribe to it, and the other way round,
-- whatever extensions they have registered; and if either side lets it pass, it is a single level of
-- an MQTT topic: not empty, without "/", "+", "#" and U+0000.
pub validate_topic-fits :
    (a b : Map String (Bool × Bool)) (topic : String) (for_subscription : Bool)
    → ((standard_topic topic ≡ none)
        ⊎ (validate_topic agv_direction a topic for_subscription
            ≡ validate_topic master_control_direction b topic (not for_subscription)))
      × ((validate_topic agv_direction a topic for_subscription ≡ false) ⊎ IsLevel topic)
      × ((validate_topic master_control_direction b topic for_subscription ≡ false) ⊎ IsLevel topic)
validate_topic-fits a b topic for_subscription = (
  fits_or_extends a b topic for_subscription,
  passes-IsLevel agv_direction a topic for_subscription,
  passes-IsLevel master_control_direction b topic for_subscription,
)
