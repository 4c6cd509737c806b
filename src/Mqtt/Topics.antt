-- ===== src/Mqtt/Topics.antt =====
-- MQTT topics after a topic format: `_compileMqttTopic` of src/common/subscription-manager.ts and the
-- functions that it makes. `split` and `join` are those of JavaScript with the separator "/".
pub mod Levels
pub mod Filled
pub mod RoundTrip
use mathlib.Core.Option
use Prim.Native.String
use Prim.Native.Char.{Char}
use text.Mathlib.Text
use vda_5050_lib_js.Common.{
  Bool, List, Option, String, [], any, eq_Option, eq_String, eq_ℕ, false, find?, find_index?,
  get_elem?, if◌then◌else◌, is_some, map, none, not, set, some, suc, ℕ, ◌&&◌, ◌++◌, ◌+◌, ◌==◌, ◌||◌,
  ◌∷◌,
}
use vda_5050_lib_js.Mqtt.Utf8.{get_utf8_bytes_count}
use vda_5050_lib_js.Mqtt.Utf8.Bytes.{utf16}

abbrev slash : String
slash = "/"

abbrev pub prepend : Char → List String → List String
prepend c [] = String.◌∷◌ c String.[] ∷ []
prepend c (l ∷ ls) = String.◌∷◌ c l ∷ ls

unfoldable pub split : String → List String
split String.[] = String.[] ∷ []
split (String.◌∷◌ c s) =
    let rest = split s in
    if String.◌∷◌ c String.[] == slash then String.[] ∷ rest else prepend c rest

unfoldable pub join : List String → String
join [] = ""
join (l ∷ []) = l
join (l ∷ k ∷ ls) = String.◌++◌ l (String.◌++◌ slash (join (k ∷ ls)))

-- The levels of the format, and where the placeholders stand in them.
pub record TopicFormat : Type 0 where
  pub levels : List String
  pub interface_name : String
  pub major_version : String
  pub interface_index : Option ℕ
  pub version_index : Option ℕ
  pub manufacturer_index : Option ℕ
  pub serial_number_index : Option ℕ
  pub topic_index : ℕ

abbrev pub index_of_level : String → List String → Option ℕ
index_of_level p levels = find_index? (λ l. l == p) levels

-- The placeholder stands in part of a level, or in a further one.
abbrev misplaced_from : ℕ → String → Option ℕ → List String → Bool
misplaced_from i p index [] = false
misplaced_from i p index (l ∷ levels) =
    is_some (Text.find? l p) && not (some i == index) || misplaced_from (suc i) p index levels

abbrev pub placeholders : List String
placeholders =
    "%interfaceName%" ∷ "%majorVersion%" ∷ "%manufacturer%" ∷ "%serialNumber%" ∷ "%topic%" ∷ []

unfoldable pub any_misplaced : List String → Bool
any_misplaced levels = any (λ p. misplaced_from 0 p (index_of_level p levels) levels) placeholders

abbrev pub major_of : String → String
major_of version = elim (Text.find? version ".") [
  | none ↦ "v"
  | some i ↦ String.◌++◌ "v" (String.slice version 0 i)
]

abbrev pub format_of : List String → String → String → ℕ → TopicFormat
format_of levels interface_name protocol_version topic_index = record {
  levels = levels;
  interface_name = interface_name;
  major_version = major_of protocol_version;
  interface_index = index_of_level "%interfaceName%" levels;
  version_index = index_of_level "%majorVersion%" levels;
  manufacturer_index = index_of_level "%manufacturer%" levels;
  serial_number_index = index_of_level "%serialNumber%" levels;
  topic_index = topic_index;
}

-- `none` is a throw.
unfoldable pub compile_levels : List String → String → String → Option TopicFormat
unfolding any_misplaced
compile_levels levels interface_name protocol_version =
    if any_misplaced levels
    then none
    else Option.map (format_of levels interface_name protocol_version)
        (index_of_level "%topic%" levels)

unfoldable pub compile_mqtt_topic : String → String → String → Option TopicFormat
unfolding split compile_levels
compile_mqtt_topic topic_format = compile_levels (split topic_format)

-- A write at index -1 makes a property that `join` does not see.
abbrev pub set_level : Option ℕ → String → List String → List String
set_level none v levels = levels
set_level (some i) v levels = set levels i v

unfoldable pub fill_levels : TopicFormat → String → String → String → List String
fill_levels f manufacturer serial_number topic =
    set
      (set_level f.serial_number_index serial_number (
        set_level f.manufacturer_index manufacturer (
          set_level f.version_index f.major_version
            (set_level f.interface_index f.interface_name f.levels))))
      f.topic_index topic

unfoldable pub construct_mqtt_topic : TopicFormat → String → String → String → String
unfolding join fill_levels
construct_mqtt_topic f manufacturer serial_number topic =
    join (fill_levels f manufacturer serial_number topic)

abbrev pub level_at : Option ℕ → List String → Option String
level_at none levels = none
level_at (some i) levels = get_elem? levels i

-- Manufacturer, serial number and topic, each `none` if it is `undefined`.
unfoldable pub deconstruct_mqtt_topic :
    TopicFormat → String → Option String × Option String × Option String
unfolding split
deconstruct_mqtt_topic f mqtt_topic =
    let levels = split mqtt_topic in
    (
      level_at f.manufacturer_index levels,
      level_at f.serial_number_index levels,
      get_elem? levels f.topic_index,
    )

-- The bytes of the levels, and one for each separator.
abbrev bytes_of : List String → ℕ
bytes_of [] = 0
bytes_of (l ∷ []) = get_utf8_bytes_count (utf16 l)
bytes_of (l ∷ k ∷ ls) = get_utf8_bytes_count (utf16 l) + 1 + bytes_of (k ∷ ls)

unfoldable pub get_mqtt_topic_utf8_length : TopicFormat → String → String → String → ℕ
unfolding fill_levels get_utf8_bytes_count
get_mqtt_topic_utf8_length f manufacturer serial_number topic =
    bytes_of (fill_levels f manufacturer serial_number topic)
