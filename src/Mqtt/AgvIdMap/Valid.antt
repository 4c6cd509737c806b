-- ===== src/Mqtt/AgvIdMap/Valid.antt =====
-- A map of AGV identifiers stays valid, and is a map.
use mathlib.Core.Option
use vda_5050_lib_js.Common.Map
use vda_5050_lib_js.Mqtt.AgvIdMap
use vda_5050_lib_js.Common.{
  All, Bool-cases, Option-cases, String, [], arith, eq_Bool, eq_Option, eq_String, eq_ℕ, inl, inr,
  length, map, none, some, ◌==◌, ◌∷◌, ◌≡◌, ◌≢◌,
}
use vda_5050_lib_js.Vda.{AgvId, eq_AgvId}
use vda_5050_lib_js.Common.Map.{IsMap, Map, delete-IsMap, set-IsMap}
use vda_5050_lib_js.Mqtt.AgvIdMap.{AgvIdMap, delete, get, set}
use vda_5050_lib_js.Mqtt.AgvIdMap.Laws.{IsValid, found_inner, get-set_ne, get-set_self}
use vda_5050_lib_js.Mqtt.AgvIdMap.Deleted.{
  delete-none, delete-some, get-delete_ne, get-delete_self, without_inner,
}

module _ {ℓ} {T : Type ℓ} where
  abbrev FullInner : String × Map String T → Type ℓ
  FullInner b = IsMap b.1 × (b.1 ≢ [])

  set-full :
      (k : String) (map : Map String T) (m : AgvIdMap T)
      → FullInner (k, map)
      → All FullInner m
      → All FullInner (Map.set k map m)
  unfolding Map.set
  set-full k map [] h a = (h, tt)
  set-full k map ((j, n) ∷ m) h (b, a) = elim (Bool-cases (j == k)) [
    | inl e ↦ simp e (h, a)
    | inr e ↦ simp e (b, set-full k map m h a)
  ]

  delete-full : (k : String) (m : AgvIdMap T) → All FullInner m → All FullInner (Map.delete k m)
  unfolding Map.delete
  delete-full k [] a = tt
  delete-full k ((j, n) ∷ m) (b, a) = elim (Bool-cases (j == k)) [
    | inl e ↦ simp e a
    | inr e ↦ simp e (b, delete-full k m a)
  ]

  set_nonempty : (k : String) (v : T) (map : Map String T) → Map.set k v map ≢ []
  unfolding Map.set
  set_nonempty k v [] = λ e. cc
  set_nonempty k v ((j, w) ∷ map) = elim (Bool-cases (j == k)) [
    | inl e ↦ simp e (λ h. cc)
    | inr e ↦ simp e (λ h. cc)
  ]

  get_or-IsMap :
      (k : String) (m : AgvIdMap T) → All FullInner m → IsMap (Option.get_or (Map.get k m) [])
  get_or-IsMap k m a = elim (Option-cases (Map.get k m)) [
    | inl e ↦ simp e tt
    | inr (map, e) ↦ simp e (found_inner k map m a e)
  ]

  pub set-IsValid :
      (id : AgvId) (v : T) (m : AgvIdMap T) → IsValid m → IsValid (AgvIdMap.set id v m)
  unfolding AgvIdMap.set
  set-IsValid id v m (h, a) =
      let old = Option.get_or (Map.get id.manufacturer m) [] in
      let map = Map.set id.serial_number v old in
      (
        Map.set-IsMap id.manufacturer map m h,
        set-full id.manufacturer map m
            (
              Map.set-IsMap id.serial_number v old (get_or-IsMap id.manufacturer m a),
              set_nonempty id.serial_number v old,
            )
            a,
      )

  without-IsValid :
      (id : AgvId) (rest : Map String T) (m : AgvIdMap T)
      → IsMap rest
      → IsValid m
      → IsValid (without_inner id rest m)
  without-IsValid id rest m r (h, a) = elim (Bool-cases (length rest == 0)) [
    | inl e ↦ simp e (Map.delete-IsMap id.manufacturer m h, delete-full id.manufacturer m a)
    | inr e ↦ simp e (
      Map.set-IsMap id.manufacturer rest m h,
      set-full id.manufacturer rest m (r, λ empty. absurd (ground arith)) a,
    )
  ]

  pub delete-IsValid : (id : AgvId) (m : AgvIdMap T) → IsValid m → IsValid (AgvIdMap.delete id m)
  delete-IsValid id m (h, a) = elim (Option-cases (Map.get id.manufacturer m)) [
    | inl e ↦ rw (delete-none id m e) (h, a)
    | inr (map, e) ↦ rw (delete-some id map m e) (
        without-IsValid id (Map.delete id.serial_number map) m
          (Map.delete-IsMap id.serial_number map (found_inner id.manufacturer map m a e)) (h, a))
  ]

-- `AgvIdMap` is a map of whole identifiers: `set` and `delete` change what `get` finds at their
-- identifier, and nothing at any other one, and keep every key unique and no inner map empty.
pub AgvIdMap_laws {ℓ} :
    {T : Type ℓ} (id j : AgvId) (v : T) (m : AgvIdMap T)
    → IsValid m
    → id ≢ j
    → (AgvIdMap.get id (AgvIdMap.set id v m) ≡ some v)
      × (AgvIdMap.get j (AgvIdMap.set id v m) ≡ AgvIdMap.get j m)
      × (AgvIdMap.get id (AgvIdMap.delete id m) ≡ none)
      × (AgvIdMap.get j (AgvIdMap.delete id m) ≡ AgvIdMap.get j m)
      × IsValid (AgvIdMap.set id v m)
      × IsValid (AgvIdMap.delete id m)
AgvIdMap_laws id j v m h d = (
  get-set_self id v m,
  get-set_ne id j v m d,
  get-delete_self id m h,
  get-delete_ne id j m h d,
  set-IsValid id v m h,
  delete-IsValid id m h,
)
