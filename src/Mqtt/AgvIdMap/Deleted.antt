-- ===== src/Mqtt/AgvIdMap/Deleted.antt =====
-- What `get` finds in a map of AGV identifiers after `delete`.
use vda_5050_lib_js.Common.Map
use vda_5050_lib_js.Mqtt.AgvIdMap
use vda_5050_lib_js.Common.{
  Bool-cases, Option-cases, String, [], ap, arith, eq_Option, eq_String, eq_of_==, eq_ℕ,
  if◌then◌else◌, inl, inr, length, map, ne_of_==, none, refl, some, sym, true, ◌==◌, ◌∙◌, ◌∷◌, ◌≡◌,
  ◌≢◌,
}
use vda_5050_lib_js.Vda.{AgvId}
use vda_5050_lib_js.Common.Map.{IsMap, Map}
use vda_5050_lib_js.Mqtt.AgvIdMap.{AgvIdMap, delete, get, set}
use vda_5050_lib_js.Mqtt.AgvIdMap.Laws.{IsValid, found_inner, get_lem, ids_differ, inner}

module _ {ℓ} {T : Type ℓ} where
  abbrev pub without_inner : AgvId → Map String T → AgvIdMap T → AgvIdMap T
  without_inner id rest m =
      if length rest == 0 then Map.delete id.manufacturer m else Map.set id.manufacturer rest m

  pub delete-none :
      (id : AgvId) (m : AgvIdMap T) → Map.get id.manufacturer m ≡ none → AgvIdMap.delete id m ≡ m
  unfolding AgvIdMap.delete
  delete-none id m e = rw (e, AgvIdMap.delete) refl

  pub delete-some :
      (id : AgvId) (map : Map String T) (m : AgvIdMap T)
      → Map.get id.manufacturer m ≡ some map
      → AgvIdMap.delete id m ≡ without_inner id (Map.delete id.serial_number map) m
  unfolding AgvIdMap.delete
  delete-some id map m e = rw (e, AgvIdMap.delete) refl

  empty_of_length : (map : Map String T) → (length map == 0) ≡ true → map ≡ []
  empty_of_length [] e = refl
  empty_of_length (b ∷ map) e = absurd (ground arith)

  -- What the outer map holds for the manufacturer afterwards looks up like the rest.
  inner-without :
      (id : AgvId) (rest : Map String T) (m : AgvIdMap T) (k : String)
      → IsMap m
      → inner (Map.get id.manufacturer (without_inner id rest m)) k ≡ Map.get k rest
  unfolding Map.get
  inner-without id rest m k h = elim (Bool-cases (length rest == 0)) [
    | inl e ↦
        let empty : rest ≡ [] = empty_of_length rest e in
        simp e (
          ap (λ o. inner o k) (Map.get-delete_self id.manufacturer m h)
          ∙ sym (ap (Map.get k) empty))
    | inr e ↦ simp e (ap (λ o. inner o k) (Map.get-set_self id.manufacturer rest m))
  ]

  get-without_ne :
      (id : AgvId) (rest : Map String T) (m : AgvIdMap T) (k : String)
      → id.manufacturer ≢ k
      → Map.get k (without_inner id rest m) ≡ Map.get k m
  get-without_ne id rest m k h = elim (Bool-cases (length rest == 0)) [
    | inl e ↦ simp e (Map.get-delete_ne id.manufacturer k m h)
    | inr e ↦ simp e (Map.get-set_ne id.manufacturer k rest m h)
  ]

  pub get-delete_self :
      (id : AgvId) (m : AgvIdMap T) → IsValid m → AgvIdMap.get id (AgvIdMap.delete id m) ≡ none
  get-delete_self id m (h, a) = elim (Option-cases (Map.get id.manufacturer m)) [
    | inl e ↦
        ap (AgvIdMap.get id) (delete-none id m e)
        ∙ get_lem id m
        ∙ ap (λ o. inner o id.serial_number) e
    | inr (map, e) ↦
        let rest = Map.delete id.serial_number map in
        ap (AgvIdMap.get id) (delete-some id map m e)
        ∙ get_lem id (without_inner id rest m)
        ∙ inner-without id rest m id.serial_number h
        ∙ Map.get-delete_self id.serial_number map (found_inner id.manufacturer map m a e)
  ]

  pub get-delete_ne :
      (id j : AgvId) (m : AgvIdMap T)
      → IsValid m
      → id ≢ j
      → AgvIdMap.get j (AgvIdMap.delete id m) ≡ AgvIdMap.get j m
  get-delete_ne id j m (h, a) d = elim (Option-cases (Map.get id.manufacturer m)) [
    | inl e ↦ ap (AgvIdMap.get j) (delete-none id m e)
    | inr (map, e) ↦
        let rest = Map.delete id.serial_number map in
        ap (AgvIdMap.get j) (delete-some id map m e)
        ∙ get_lem j (without_inner id rest m)
        ∙ elim (Bool-cases (id.manufacturer == j.manufacturer)) [
          | inl k ↦
              let same : id.manufacturer ≡ j.manufacturer =
                eq_of_== id.manufacturer j.manufacturer k in
              ap (λ n. inner (Map.get n (without_inner id rest m)) j.serial_number) (sym same)
              ∙ inner-without id rest m j.serial_number h
              ∙ Map.get-delete_ne id.serial_number j.serial_number map (ids_differ id j d same)
              ∙ sym (ap (λ o. inner o j.serial_number) e)
              ∙ ap (λ n. inner (Map.get n m) j.serial_number) same
          | inr k ↦
              ap (λ o. inner o j.serial_number)
                (get-without_ne id rest m j.manufacturer
                  (ne_of_== id.manufacturer j.manufacturer k))
        ]
        ∙ sym (get_lem j m)
  ]
