-- ===== src/Mqtt/AgvIdMap.antt =====
-- Maps from AGV identifiers to values: src/common/agvid-map.ts.
use mathlib.Core.Option
use vda_5050_lib_js.Common.Map
pub mod Laws
pub mod Deleted
pub mod Valid
use vda_5050_lib_js.Common.{
  List, Option, String, [], eq_Option, eq_String, eq_ℕ, flat_map, if◌then◌else◌, length, map, none,
  some, ℕ, ◌+◌, ◌==◌, ◌∷◌,
}
use vda_5050_lib_js.Vda.{AgvId}
use vda_5050_lib_js.Common.Map.{Map}

-- A map of serial numbers for each manufacturer.
abbrev pub AgvIdMap {ℓ} : Type ℓ → Type ℓ
AgvIdMap T = Map String (Map String T)

module _ {ℓ} {T : Type ℓ} where
  abbrev total : Map String (Map String T) → ℕ
  total [] = 0
  total ((k, map) ∷ m) = length map + total m

  unfoldable pub size : AgvIdMap T → ℕ
  size = total

  unfoldable pub get : AgvId → AgvIdMap T → Option T
  unfolding Map.get
  get agv_id m = elim (Map.get agv_id.manufacturer m) [
    | none ↦ none
    | some map ↦ Map.get agv_id.serial_number map
  ]

  -- The inner map is made where there is none, and changed in place otherwise.
  unfoldable pub set : AgvId → T → AgvIdMap T → AgvIdMap T
  unfolding Map.get Map.set
  set agv_id value m =
      Map.set agv_id.manufacturer
        (Map.set agv_id.serial_number value (Option.get_or (Map.get agv_id.manufacturer m) [])) m

  -- An inner map that has become empty is removed.
  unfoldable pub delete : AgvId → AgvIdMap T → AgvIdMap T
  unfolding Map.get Map.set Map.delete
  delete agv_id m = elim (Map.get agv_id.manufacturer m) [
    | none ↦ m
    | some map ↦
        let rest = Map.delete agv_id.serial_number map in
        if length rest == 0
        then Map.delete agv_id.manufacturer m
        else Map.set agv_id.manufacturer rest m
  ]

  unfoldable pub clear : AgvIdMap T → AgvIdMap T
  clear m = []

  -- The iterator.
  unfoldable pub entries : AgvIdMap T → List (AgvId × T)
  entries = flat_map λ (b : String × Map String T).
      map (λ (e : String × T). (record { manufacturer = b.0; serial_number = e.0 }, e.1)) b.1
