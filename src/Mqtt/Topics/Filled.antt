-- ===== src/Mqtt/Topics/Filled.antt =====
-- What stands at the places of the placeholders once the levels are filled in.
-- Two placeholders have two indices.
use vda_5050_lib_js.Common.{
  All, List, Option, String, ap, arith, eq_Option, eq_String, eq_ℕ, false, get_elem?, length,
  ne_of_==, none, refl, some, sym, ℕ, ◌<◌, ◌==◌, ◌∙◌, ◌≡◌, ◌≢◌,
}
use vda_5050_lib_js.Mqtt.Topics.{
  TopicFormat, fill_levels, format_of, index_of_level, major_of, set_level,
}
use vda_5050_lib_js.Mqtt.Topics.Levels.{
  NoSlash, bound_of_get, get-set_ne, get-set_self, index_of_level-get, length-set, set-All,
}

indices_differ :
    (p q : String) (ls : List String) (i j : ℕ)
    → (p == q) ≡ false
    → index_of_level p ls ≡ some i
    → index_of_level q ls ≡ some j
    → i ≢ j
indices_differ p q ls i j h e k same =
    let here : get_elem? ls i ≡ some p = index_of_level-get p ls i e in
    let there : get_elem? ls j ≡ some q = index_of_level-get q ls j k in
    let one : some p ≡ some q = sym here ∙ ap (get_elem? ls) same ∙ there in ne_of_== p q h (cc)

-- Setting the level of one placeholder leaves that of another.
set_level-other :
    (p q : String) (ls ks : List String) (o : Option ℕ) (j : ℕ) (v : String)
    → (p == q) ≡ false
    → o ≡ index_of_level p ls
    → index_of_level q ls ≡ some j
    → get_elem? (set_level o v ks) j ≡ get_elem? ks j
set_level-other p q ls ks none j v h e k = refl
set_level-other p q ls ks (some i) j v h e k =
    get-set_ne ks i j v (indices_differ p q ls i j h (sym e) k)

length-set_level :
    (o : Option ℕ) (v : String) (ls : List String) → length (set_level o v ls) ≡ length ls
length-set_level none v ls = refl
length-set_level (some i) v ls = length-set ls i v

set_level-NoSlash :
    (o : Option ℕ) (v : String) (ls : List String)
    → NoSlash v
    → All NoSlash ls
    → All NoSlash (set_level o v ls)
set_level-NoSlash none v ls h a = a
set_level-NoSlash (some i) v ls h a = set-All NoSlash ls i v h a

set_level_self :
    (o : Option ℕ) (ks : List String) (j : ℕ) (v : String)
    → o ≡ some j
    → j < length ks
    → get_elem? (set_level o v ks) j ≡ some v
set_level_self none ks j v e h = cc
set_level_self (some i) ks j v e h = let same : i ≡ j = cc in rw same (get-set_self ks j v h)

module _ (ls : List String) (interface_name version : String) (n : ℕ) where
  abbrev format : TopicFormat
  format = format_of ls interface_name version n

  -- The four levels that are set before that of the topic.
  abbrev before_topic : String → String → List String
  before_topic m s = set_level format.serial_number_index s (
      set_level format.manufacturer_index m (
        set_level format.version_index format.major_version
          (set_level format.interface_index interface_name ls)))

  abbrev before_serial_number : String → List String
  before_serial_number m = set_level format.manufacturer_index m (
      set_level format.version_index format.major_version
        (set_level format.interface_index interface_name ls))

  abbrev before_manufacturer : List String
  before_manufacturer =
      set_level format.version_index format.major_version
        (set_level format.interface_index interface_name ls)

  length-before_manufacturer : length before_manufacturer ≡ length ls
  length-before_manufacturer =
      length-set_level format.version_index format.major_version
        (set_level format.interface_index interface_name ls)
      ∙ length-set_level format.interface_index interface_name ls

  length-before_serial_number : (m : String) → length (before_serial_number m) ≡ length ls
  length-before_serial_number m =
      length-set_level format.manufacturer_index m before_manufacturer ∙ length-before_manufacturer

  length-before_topic : (m s : String) → length (before_topic m s) ≡ length ls
  length-before_topic m s =
      length-set_level format.serial_number_index s (before_serial_number m)
      ∙ length-before_serial_number m

  bound : (p : String) (j : ℕ) → index_of_level p ls ≡ some j → j < length ls
  bound p j e = bound_of_get ls j p (index_of_level-get p ls j e)

  pub fill-topic :
      (m s t : String)
      → index_of_level "%topic%" ls ≡ some n
      → get_elem? (fill_levels format m s t) n ≡ some t
  unfolding fill_levels
  fill-topic m s t e =
      get-set_self (before_topic m s) n t (rw (length-before_topic m s) (bound "%topic%" n e))

  pub fill-serial_number :
      (m s t : String) (j : ℕ)
      → index_of_level "%topic%" ls ≡ some n
      → index_of_level "%serialNumber%" ls ≡ some j
      → get_elem? (fill_levels format m s t) j ≡ some s
  unfolding fill_levels
  fill-serial_number m s t j e k =
      get-set_ne (before_topic m s) n j t
        (indices_differ "%topic%" "%serialNumber%" ls n j refl e k)
      ∙ set_level_self format.serial_number_index (before_serial_number m) j s k
          (rw (length-before_serial_number m) (bound "%serialNumber%" j k))

  pub fill-manufacturer :
      (m s t : String) (j : ℕ)
      → index_of_level "%topic%" ls ≡ some n
      → index_of_level "%manufacturer%" ls ≡ some j
      → get_elem? (fill_levels format m s t) j ≡ some m
  unfolding fill_levels
  fill-manufacturer m s t j e k =
      get-set_ne (before_topic m s) n j t
        (indices_differ "%topic%" "%manufacturer%" ls n j refl e k)
      ∙ set_level-other "%serialNumber%" "%manufacturer%" ls (before_serial_number m)
          format.serial_number_index j s refl refl k
      ∙ set_level_self format.manufacturer_index before_manufacturer j m k
          (rw length-before_manufacturer (bound "%manufacturer%" j k))

  pub fill-NoSlash :
      (m s t : String)
      → All NoSlash ls
      → NoSlash interface_name
      → NoSlash (major_of version)
      → NoSlash m
      → NoSlash s
      → NoSlash t
      → All NoSlash (fill_levels format m s t)
  unfolding fill_levels
  fill-NoSlash m s t a hi hv hm hs ht = set-All NoSlash (before_topic m s) n t ht (
      set_level-NoSlash format.serial_number_index s (before_serial_number m) hs (
        set_level-NoSlash format.manufacturer_index m before_manufacturer hm (
          set_level-NoSlash format.version_index format.major_version
            (set_level format.interface_index interface_name ls) hv
            (set_level-NoSlash format.interface_index interface_name ls hi a))))

  pub fill-nonempty :
      (m s t : String)
      → index_of_level "%topic%" ls ≡ some n
      → 0 < length (fill_levels format m s t)
  unfolding fill_levels
  fill-nonempty m s t e =
      omega (arith, length-set (before_topic m s) n t, length-before_topic m s, bound "%topic%" n e)
