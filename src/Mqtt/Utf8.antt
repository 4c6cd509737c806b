-- ===== src/Mqtt/Utf8.antt =====
-- The length of an MQTT topic in UTF-8: src/common/mqtt-utils.ts. A string of the program is the list
-- of its UTF-16 code units there.
pub mod Bytes
use vda_5050_lib_js.Common.{
  List, Option, [], if◌then◌else◌, leb, length, ltb, none, some, ℕ, ◌*◌, ◌+◌, ◌∷◌,
}

abbrev unit_bytes : ℕ → ℕ
unit_bytes code =
    if leb code 127
    then 1
    else if leb code 2047
    then 2
    else if leb code 55295
    then 3
    else if leb code 57343
    then 2
    else 3

unfoldable pub get_utf8_bytes_count : List ℕ → ℕ
get_utf8_bytes_count [] = 0
get_utf8_bytes_count (code ∷ units) = unit_bytes code + get_utf8_bytes_count units

-- It throws, `none`, or returns.
unfoldable pub assert_mqtt_topic_utf8_count : ℕ → Option (Unit {0})
assert_mqtt_topic_utf8_count utf8_count = if ltb 65535 utf8_count then none else some tt

unfoldable pub assert_mqtt_topic_length : List ℕ → Option (Unit {0})
unfolding get_utf8_bytes_count assert_mqtt_topic_utf8_count
assert_mqtt_topic_length mqtt_topic =
    if ltb 65535 (length mqtt_topic * 4)
    then assert_mqtt_topic_utf8_count (get_utf8_bytes_count mqtt_topic)
    else some tt
