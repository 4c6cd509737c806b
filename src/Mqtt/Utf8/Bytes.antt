-- ===== src/Mqtt/Utf8/Bytes.antt =====
-- The count of bytes is that of the UTF-8 encoding, and the shortcut on short topics is sound.
use Prim.Native.String
use Prim.Native.String.len
use Prim.Native.Nat.{◌/◌}
use Prim.Native.Char.{Char, code, char, len_utf8, len_utf8_def}
use vda_5050_lib_js.Common.{
  List, String, [], ap, arith, if◌then◌else◌, length, ltb, some, sym, ℕ, ◌%◌, ◌*◌, ◌++◌, ◌+◌, ◌-◌,
  ◌↔◌, ◌∙◌, ◌∷◌, ◌≡◌, ◌≤◌,
}
use vda_5050_lib_js.Mqtt.Utf8.{
  assert_mqtt_topic_length, assert_mqtt_topic_utf8_count, get_utf8_bytes_count,
}

-- The UTF-16 code units of a character: itself, or a pair of surrogates.
abbrev pub units_of : Char → List ℕ
units_of c =
    if ltb (code c) 65536
    then code c ∷ []
    else (55296 + (code c - 65536) / 1024) ∷ (56320 + (code c - 65536) % 1024) ∷ []

abbrev pub utf16 : String → List ℕ
utf16 String.[] = []
utf16 (String.◌∷◌ c s) = units_of c ++ utf16 s

char_bytes : (c : Char) → get_utf8_bytes_count (units_of c) ≡ len_utf8 c
unfolding get_utf8_bytes_count
char_bytes (char n scalar) = ground arith ∙ sym (len_utf8_def (char n scalar))

pub count-append :
    (us vs : List ℕ)
    → get_utf8_bytes_count (us ++ vs) ≡ get_utf8_bytes_count us + get_utf8_bytes_count vs
unfolding get_utf8_bytes_count
count-append [] vs = omega arith
count-append (u ∷ us) vs = omega (arith, count-append us vs)

pub utf16-bytes : (s : String) → get_utf8_bytes_count (utf16 s) ≡ String.len s
unfolding get_utf8_bytes_count
utf16-bytes String.[] = sym len.nil
utf16-bytes (String.◌∷◌ c s) =
    count-append (units_of c) (utf16 s)
    ∙ ap (λ n. n + get_utf8_bytes_count (utf16 s)) (char_bytes c)
    ∙ ap (λ n. len_utf8 c + n) (utf16-bytes s)
    ∙ sym (len.cons c s)

-- No code unit takes more than three bytes.
count_bound : (us : List ℕ) → get_utf8_bytes_count us ≤ length us * 3
unfolding get_utf8_bytes_count
count_bound [] = omega arith
count_bound (u ∷ us) = ground (arith, count_bound us)

passes_iff :
    (us : List ℕ) → (assert_mqtt_topic_length us ≡ some tt) ↔ (get_utf8_bytes_count us ≤ 65535)
unfolding assert_mqtt_topic_length assert_mqtt_topic_utf8_count
passes_iff us = (λ h. ground (arith, count_bound us), λ h. ground (arith, count_bound us))

-- A topic passes `assertMqttTopicLength` exactly if its UTF-8 encoding has at most 65535 bytes: the
-- bytes are counted right for every string that is not malformed, and where they are not counted
-- there are few enough.
pub assert_mqtt_topic_length_iff :
    (topic : String)
    → (assert_mqtt_topic_length (utf16 topic) ≡ some tt) ↔ (String.len topic ≤ 65535)
assert_mqtt_topic_length_iff topic = rw⁻¹ (utf16-bytes topic) (passes_iff (utf16 topic))
