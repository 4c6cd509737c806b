-- ===== src/Mqtt/AgvIdMap/Laws.antt =====
-- A map of AGV identifiers is a map: what `get` finds after `set` and `delete`.
use mathlib.Core.Option
use vda_5050_lib_js.Common.Map
use vda_5050_lib_js.Mqtt.AgvIdMap
use vda_5050_lib_js.Common.{
  All, Bool-cases, Option, Option-cases, String, [], ap, arith, eq_Option, eq_String, eq_of_==,
  eq_ℕ, inl, inr, map, ne_of_==, none, refl, some, sym, ◌==◌, ◌∙◌, ◌∷◌, ◌≡◌, ◌≢◌,
}
use vda_5050_lib_js.Vda.{AgvId}
use vda_5050_lib_js.Common.Map.{IsMap, Map}
use vda_5050_lib_js.Mqtt.AgvIdMap.{AgvIdMap, get, set}

-- Every key stands once, in the outer map and in the inner ones, and no inner map is empty.
abbrev pub IsValid {ℓ} : {T : Type ℓ} → AgvIdMap T → Type ℓ
IsValid m = IsMap m × All (λ b. IsMap b.1 × (b.1 ≢ [])) m

pub ids_differ :
    (id j : AgvId) → id ≢ j → id.manufacturer ≡ j.manufacturer → id.serial_number ≢ j.serial_number
ids_differ id j h e k = h (λ i. record { manufacturer = e i; serial_number = k i })

module _ {ℓ} {T : Type ℓ} where
  -- The value under two keys.
  abbrev pub inner : Option (Map String T) → String → Option T
  inner none k = none
  inner (some map) k = Map.get k map

  pub inner-get_or :
      (o : Option (Map String T)) (k : String) → Map.get k (Option.get_or o []) ≡ inner o k
  unfolding Map.get
  inner-get_or none k = refl
  inner-get_or (some map) k = refl

  pub get_lem :
      (id : AgvId) (m : AgvIdMap T)
      → AgvIdMap.get id m ≡ inner (Map.get id.manufacturer m) id.serial_number
  unfolding AgvIdMap.get
  get_lem id m = elim (Option-cases (Map.get id.manufacturer m)) [
    | inl e ↦ rw (e, AgvIdMap.get) refl
    | inr (map, e) ↦ rw (e, AgvIdMap.get) refl
  ]

  pub get-set_self :
      (id : AgvId) (v : T) (m : AgvIdMap T) → AgvIdMap.get id (AgvIdMap.set id v m) ≡ some v
  unfolding AgvIdMap.set
  get-set_self id v m =
      get_lem id (AgvIdMap.set id v m)
      ∙ ap (λ o. inner o id.serial_number)
          (Map.get-set_self id.manufacturer
            (Map.set id.serial_number v (Option.get_or (Map.get id.manufacturer m) [])) m)
      ∙ Map.get-set_self id.serial_number v (Option.get_or (Map.get id.manufacturer m) [])

  pub get-set_ne :
      (id j : AgvId) (v : T) (m : AgvIdMap T)
      → id ≢ j
      → AgvIdMap.get j (AgvIdMap.set id v m) ≡ AgvIdMap.get j m
  unfolding AgvIdMap.set
  get-set_ne id j v m h = elim (Bool-cases (id.manufacturer == j.manufacturer)) [
    | inl e ↦
        let same : id.manufacturer ≡ j.manufacturer = eq_of_== id.manufacturer j.manufacturer e in
        get_lem j (AgvIdMap.set id v m)
        ∙ ap (λ k. inner (Map.get k (AgvIdMap.set id v m)) j.serial_number) (sym same)
        ∙ ap (λ o. inner o j.serial_number)
            (Map.get-set_self id.manufacturer
              (Map.set id.serial_number v (Option.get_or (Map.get id.manufacturer m) [])) m)
        ∙ Map.get-set_ne id.serial_number j.serial_number v
            (Option.get_or (Map.get id.manufacturer m) []) (ids_differ id j h same)
        ∙ inner-get_or (Map.get id.manufacturer m) j.serial_number
        ∙ ap (λ k. inner (Map.get k m) j.serial_number) same
        ∙ sym (get_lem j m)
    | inr e ↦
        get_lem j (AgvIdMap.set id v m)
        ∙ ap (λ o. inner o j.serial_number)
            (Map.get-set_ne id.manufacturer j.manufacturer
              (Map.set id.serial_number v (Option.get_or (Map.get id.manufacturer m) [])) m
              (ne_of_== id.manufacturer j.manufacturer e))
        ∙ sym (get_lem j m)
  ]

  pub found_inner :
      (k : String) (map : Map String T) (m : AgvIdMap T)
      → All (λ b. IsMap b.1 × (b.1 ≢ [])) m
      → Map.get k m ≡ some map
      → IsMap map
  unfolding Map.get
  found_inner k map [] a e = cc
  found_inner k map ((j, n) ∷ m) ((h, _), a) e = elim (Bool-cases (j == k)) [
    | inl same ↦ let here : n ≡ map = ground arith in rw⁻¹ here h
    | inr other ↦ let there : Map.get k m ≡ some map = ground arith in found_inner k map m a there
  ]
