-- ===== src/Master/Instants/Awaited.antt =====
-- Awaited instant actions: how their caches are kept and forgotten, and what is called, by
-- `_dispatchInstantActionState` and `_dispatchInstantActionError` of src/controller/
-- master-controller.ts.
use mathlib.Core.Option
use vda_5050_lib_js.Common.Map
use vda_5050_lib_js.Mqtt.AgvIdMap
use vda_5050_lib_js.Common.{
  Bool-cases, Option, String, [], ap, eq_Bool, eq_Option, eq_String, eq_of_==, eq_ℕ, false,
  if◌then◌else◌, inl, inr, ne_of_==, none, refl, some, sym, true, ◌==◌, ◌∙◌, ◌∷◌, ◌≡◌, ◌≢◌, ◌⊎◌,
}
use vda_5050_lib_js.Vda.{ActionState, AgvId, State, eq_AgvId, is_failed}
use vda_5050_lib_js.Common.Map.{IsMap, Map}
use vda_5050_lib_js.Mqtt.AgvIdMap.{AgvIdMap, delete, get, set}
use vda_5050_lib_js.Mqtt.AgvIdMap.Laws.{IsValid, get-set_ne, get-set_self}
use vda_5050_lib_js.Mqtt.AgvIdMap.Deleted.{get-delete_ne, get-delete_self}
use vda_5050_lib_js.Master.Controller.{
  Event, InstantActionStateCache, MasterController, done, emit, instant_action_state_changed,
}
use vda_5050_lib_js.Master.Queries.{get_action_error, is_empty, is_empty-eq}
use vda_5050_lib_js.Master.Instants.{
  InstantActionCaches, caches_of, last_reported, put_caches, put_instant_cache, put_or_delete,
  remove_in, remove_instant_action_state_cache,
}

abbrev pub pending_in : Option InstantActionCaches → String → Option InstantActionStateCache
pending_in none id = none
pending_in (some caches) id = Map.get id caches

-- The cache of an instant action that is awaited from a vehicle.
abbrev pub pending : AgvId → String → MasterController → Option InstantActionStateCache
pending a id c = pending_in (AgvIdMap.get a c.current_instant_actions) id

-- The action is awaited: its cache stands under its own id in the map of its vehicle, and all keys
-- stand once.
pub record IsPending (a : AgvId) (id : String) (cache : InstantActionStateCache)
    (caches : InstantActionCaches) (c : MasterController) : Type 0 where
  pub valid : IsValid c.current_instant_actions
  pub distinct : IsMap caches
  pub map : AgvIdMap.get a c.current_instant_actions ≡ some caches
  pub entry : Map.get id caches ≡ some cache
  pub agv : cache.agv_id ≡ a
  pub action : cache.action.action_id ≡ id

-- One event is told; the action is awaited as given then, and all others as before.
pub record IsAnswered (a : AgvId) (id : String) (left : Option InstantActionStateCache) (e : Event)
    (c d : MasterController) : Type 0 where
  pub event : d.events ≡ e ∷ c.events
  pub awaited : pending a id d ≡ left
  pub others : (b : AgvId) (j : String) → (a ≢ b) ⊎ (id ≢ j) → pending b j d ≡ pending b j c

-- The call of the handler on a new status, with the error of a failure.
abbrev pub told_of_instant : State → InstantActionStateCache → ActionState → Event
told_of_instant state cache s =
    instant_action_state_changed cache.event_handler s
      (if is_failed s.action_status
        then get_action_error state.errors cache.action.action_id true
        else none)
      cache.action cache.agv_id state

module _ (a : AgvId) (id : String) (cache : InstantActionStateCache) (caches : InstantActionCaches)
    (c : MasterController) (p : IsPending a id cache caches c) where
  abbrev m : AgvIdMap InstantActionCaches
  m = c.current_instant_actions

  pending_lem : (j : String) → pending a j c ≡ Map.get j caches
  pending_lem j = ap (λ o. pending_in o j) p.map

  -- A new map for the vehicle, removed if it is empty.
  module _ (rest : InstantActionCaches) where
    put_self :
        (j : String) → pending_in (AgvIdMap.get a (put_or_delete a rest m)) j ≡ Map.get j rest
    unfolding Map.get
    put_self j = elim (Bool-cases (is_empty rest)) [
      | inl e ↦
          ap (λ x. pending_in (AgvIdMap.get a x) j) (emptied e)
          ∙ ap (λ o. pending_in o j) (get-delete_self a m p.valid)
          ∙ sym (ap (Map.get j) (is_empty-eq rest e))
      | inr e ↦
          ap (λ x. pending_in (AgvIdMap.get a x) j) (filled e)
          ∙ ap (λ o. pending_in o j) (get-set_self a rest m)
    ]
      where
        emptied : is_empty rest ≡ true → put_or_delete a rest m ≡ AgvIdMap.delete a m
        emptied e = rw e refl

        filled : is_empty rest ≡ false → put_or_delete a rest m ≡ AgvIdMap.set a rest m
        filled e = rw e refl

    put_ne : (b : AgvId) → a ≢ b → AgvIdMap.get b (put_or_delete a rest m) ≡ AgvIdMap.get b m
    put_ne b d = elim (Bool-cases (is_empty rest)) [
      | inl e ↦ ap (AgvIdMap.get b) (emptied e) ∙ get-delete_ne a b m p.valid d
      | inr e ↦ ap (AgvIdMap.get b) (filled e) ∙ get-set_ne a b rest m d
    ]
      where
        emptied : is_empty rest ≡ true → put_or_delete a rest m ≡ AgvIdMap.delete a m
        emptied e = rw e refl

        filled : is_empty rest ≡ false → put_or_delete a rest m ≡ AgvIdMap.set a rest m
        filled e = rw e refl

  abbrev pub without : MasterController
  without = record c { current_instant_actions = put_or_delete a (Map.delete id caches) m }

  pub removes : remove_instant_action_state_cache cache c ≡ done without
  unfolding remove_instant_action_state_cache
  removes =
      ap (λ x. remove_in x cache.action.action_id (AgvIdMap.get x m) c) p.agv
      ∙ ap (λ x. remove_in a x (AgvIdMap.get a m) c) p.action
      ∙ ap (λ o. remove_in a id o c) p.map

  -- The others in the map of the vehicle.
  same_cases : (b : AgvId) (j : String) → (a ≢ b) ⊎ (id ≢ j) → (a ≢ b) ⊎ ((a ≡ b) × (id ≢ j))
  same_cases b j h = elim (Bool-cases (a == b)) [
    | inr e ↦ inl (ne_of_== a b e)
    | inl e ↦ elim h [ inl d ↦ absurd (d (eq_of_== a b e)) | inr d ↦ inr (eq_of_== a b e, d) ]
  ]

  pub without-IsAnswered : (e : Event) → IsAnswered a id none e c (emit e without)
  without-IsAnswered e = record {
    event = refl;
    awaited = put_self (Map.delete id caches) id ∙ Map.get-delete_self id caches p.distinct;
    others = λ b j h. elim (same_cases b j h) [
      | inl d ↦ ap (λ o. pending_in o j) (put_ne (Map.delete id caches) b d)
      | inr (same, d) ↦ rw⁻¹ same (
          put_self (Map.delete id caches) j ∙ Map.get-delete_ne id j caches d ∙ sym (pending_lem j))
    ];
  }

  abbrev pub kept_map : InstantActionStateCache → MasterController
  kept_map x = record c { current_instant_actions = AgvIdMap.set a (Map.set id x caches) m }

  pub kept-IsAnswered :
      (x : InstantActionStateCache) (e : Event) → IsAnswered a id (some x) e c (emit e (kept_map x))
  kept-IsAnswered x e = record {
    event = refl;
    awaited =
        ap (λ o. pending_in o id) (get-set_self a (Map.set id x caches) m)
        ∙ Map.get-set_self id x caches;
    others = λ b j h. elim (same_cases b j h) [
      | inl d ↦ ap (λ o. pending_in o j) (get-set_ne a b (Map.set id x caches) m d)
      | inr (same, d) ↦ rw⁻¹ same (
          ap (λ o. pending_in o j) (get-set_self a (Map.set id x caches) m)
          ∙ Map.get-set_ne id j x caches d
          ∙ sym (pending_lem j))
    ];
  }

  pub keeps :
      (s : ActionState)
      → put_instant_cache (last_reported s cache) c ≡ kept_map (last_reported s cache)
  keeps s =
      let x = last_reported s cache in
      ap (λ b. put_caches b (Map.set cache.action.action_id x (caches_of b c)) c) p.agv
      ∙ ap (λ i. put_caches a (Map.set i x (caches_of a c)) c) p.action
      ∙ ap (λ o. put_caches a (Map.set id x (Option.get_or o [])) c) p.map
