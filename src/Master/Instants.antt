-- ===== src/Master/Instants.antt =====
-- Instant actions: `initiateInstantActions`, the dispatch of their states and errors, and the
-- errors of validation in src/controller/master-controller.ts.
pub mod Awaited
pub mod Replies
pub mod Answered
pub mod Confused
use mathlib.Core.Option
use vda_5050_lib_js.Common.Map
use vda_5050_lib_js.Mqtt.AgvIdMap
use vda_5050_lib_js.Agv.ErrorType
use vda_5050_lib_js.Common.{
  Bool, List, Option, String, [], any, drop, eq_Bool, eq_Option, eq_String, eq_ℕ, filter, find?,
  if◌then◌else◌, length, ltb, map, none, not, some, true, ℕ, ◌&&◌, ◌++◌, ◌+◌, ◌-◌, ◌==◌, ◌∷◌,
}
use vda_5050_lib_js.Vda.{Action, ActionState, AgvId, Error, State, eq_AgvId, is_ended, is_failed}
use vda_5050_lib_js.Common.Map.{Map}
use vda_5050_lib_js.Mqtt.AgvIdMap.{AgvIdMap, delete, entries, get, set}
use vda_5050_lib_js.Master.Controller.{
  Environment, InstantActionStateCache, InstantActions, MasterController, Outcome, done, emit,
  instant_action_error, instant_action_state_changed, publish_instant_actions, thrown, ◌>>=◌,
}
use vda_5050_lib_js.Master.Queries.{get_action_error, is_empty, is_ref, references, state_of}
use vda_5050_lib_js.Master.Orders.{same_status}

abbrev pub InstantActionCaches : Type 0
InstantActionCaches = Map String InstantActionStateCache

abbrev pub new_instant_cache : AgvId → ℕ → ℕ → Action → InstantActionStateCache
new_instant_cache agv_id event_handler ref action = record {
  agv_id = agv_id;
  action = action;
  event_handler = event_handler;
  instant_actions_ref = ref;
  last_action_state = none;
}

unfoldable pub put_instant_actions :
    AgvId → ℕ → ℕ → List Action → InstantActionCaches → InstantActionCaches
unfolding Map.set
put_instant_actions agv_id event_handler ref [] caches = caches
put_instant_actions agv_id event_handler ref (a ∷ actions) caches =
    put_instant_actions agv_id event_handler ref actions
      (Map.set a.action_id (new_instant_cache agv_id event_handler ref a) caches)

unfoldable pub delete_instant_actions : List Action → InstantActionCaches → InstantActionCaches
unfolding Map.delete
delete_instant_actions [] caches = caches
delete_instant_actions (a ∷ actions) caches =
    delete_instant_actions actions (Map.delete a.action_id caches)

abbrev pub initiated_actions : Environment → InstantActions → Option (List Action)
initiated_actions env message =
    if env.vda_version == "1.1.0" then message.instant_actions else message.actions

abbrev pub next_ref : MasterController → ℕ
next_ref c = elim c.current_instant_actions_ref [ none ↦ 1 | some ref ↦ ref + 1 ]

abbrev pub put_caches : AgvId → InstantActionCaches → MasterController → MasterController
put_caches agv_id caches c = record c {
  current_instant_actions = AgvIdMap.set agv_id caches c.current_instant_actions;
}

abbrev pub caches_of : AgvId → MasterController → InstantActionCaches
caches_of agv_id c = Option.get_or (AgvIdMap.get agv_id c.current_instant_actions) []

-- `initiateInstantActions` up to the point where it waits for the publication. A message without
-- the list of its version makes it throw, with a map for the AGV made.
unfoldable pub initiate_instant_actions :
    Environment → AgvId → InstantActions → ℕ → MasterController → Outcome
unfolding AgvIdMap.get AgvIdMap.set put_instant_actions
initiate_instant_actions env agv_id message event_handler c = elim (initiated_actions env message) [
  | none ↦ thrown (put_caches agv_id (caches_of agv_id c) c)
  | some actions ↦ done (
      emit (publish_instant_actions agv_id message) (
        put_caches agv_id
          (put_instant_actions agv_id event_handler (next_ref c) actions (caches_of agv_id c)) c))
]

-- What follows when it has been published: `ref` is `next_ref` of the controller that initiated.
unfoldable pub instant_actions_published : ℕ → MasterController → MasterController
instant_actions_published ref c = record c { current_instant_actions_ref = some ref }

-- The map of an AGV is removed when it has become empty.
abbrev pub put_or_delete :
    AgvId → InstantActionCaches → AgvIdMap InstantActionCaches → AgvIdMap InstantActionCaches
put_or_delete agv_id caches m =
    if is_empty caches then AgvIdMap.delete agv_id m else AgvIdMap.set agv_id caches m

-- What follows if the publication fails, where the map that the actions were entered in is still
-- that of the AGV.
unfoldable pub initiation_failed : AgvId → List Action → MasterController → MasterController
unfolding AgvIdMap.get AgvIdMap.set AgvIdMap.delete delete_instant_actions
initiation_failed agv_id actions c = record c {
  current_instant_actions =
      put_or_delete agv_id (delete_instant_actions actions (caches_of agv_id c))
        c.current_instant_actions;
}

abbrev pub remove_in : AgvId → String → Option InstantActionCaches → MasterController → Outcome
remove_in agv_id action_id none c = thrown c
remove_in agv_id action_id (some caches) c = done (record c {
  current_instant_actions =
      put_or_delete agv_id (Map.delete action_id caches) c.current_instant_actions;
})

-- `_removeInstantActionStateCache`; without a map for the AGV it throws.
unfoldable pub remove_instant_action_state_cache :
    InstantActionStateCache → MasterController → Outcome
unfolding AgvIdMap.get AgvIdMap.set AgvIdMap.delete Map.delete
remove_instant_action_state_cache cache c =
    remove_in cache.agv_id cache.action.action_id
      (AgvIdMap.get cache.agv_id c.current_instant_actions) c

abbrev pub last_reported : ActionState → InstantActionStateCache → InstantActionStateCache
last_reported s cache = record cache { last_action_state = some s }

-- The change of a cache that stands in the map of its AGV under its key.
abbrev pub put_instant_cache : InstantActionStateCache → MasterController → MasterController
put_instant_cache cache c =
    put_caches cache.agv_id (Map.set cache.action.action_id cache (caches_of cache.agv_id c)) c

unfoldable pub dispatch_instant_action_state :
    ActionState → InstantActionStateCache → State → MasterController → Outcome
unfolding AgvIdMap.get AgvIdMap.set Map.set remove_instant_action_state_cache is_ended is_failed
    get_action_error
dispatch_instant_action_state s cache state c =
    if same_status cache.last_action_state s.action_status
    then done c
    else (if is_ended s.action_status
        then remove_instant_action_state_cache cache c
        else done (put_instant_cache (last_reported s cache) c))
      >>= λ kept. done (
          emit
            (instant_action_state_changed cache.event_handler s
              (if is_failed s.action_status
                then get_action_error state.errors cache.action.action_id true
                else none)
              cache.action cache.agv_id state)
            kept)

unfoldable pub dispatch_instant_action_error :
    Error → InstantActionStateCache → State → MasterController → Outcome
unfolding remove_instant_action_state_cache
dispatch_instant_action_error e cache state c =
    remove_instant_action_state_cache cache c >>= λ kept.
    done (emit (instant_action_error cache.event_handler e cache.action cache.agv_id state) kept)

unfoldable pub get_instant_actions_validation_error : ℕ → List (ℕ × Error) → Option Error
get_instant_actions_validation_error ref errors =
    Option.map (λ (r : ℕ × Error). r.1) (find? (λ (r : ℕ × Error). r.0 == ref) errors)

abbrev pub is_validation_error : Error → Bool
is_validation_error e =
    e.error_type == ErrorType.instant_action_validation
    && any (is_ref "topic" "instantActions") (references e)
    && not (any (λ r. r.reference_key == "orderId") (references e))
    && not (any (λ r. r.reference_key == "actionId") (references e))

-- The errors with the numbers from the given one down. Below 1 they differ from those in the
-- source, and belong to no message in both.
abbrev pub numbered_down : ℕ → List Error → List (ℕ × Error)
numbered_down ref [] = []
numbered_down ref (e ∷ es) = (ref, e) ∷ numbered_down (ref - 1) es

-- The new list: errors beyond the number of those that are known are new, and if there are fewer,
-- as many of the oldest are forgotten.
abbrev pub renewed : ℕ → List Error → List (ℕ × Error) → List (ℕ × Error)
renewed ref found known =
    if ltb (length known) (length found)
    then known ++ numbered_down ref (drop (length known) found)
    else drop (length known - length found) known

abbrev pub renew_errors : Option ℕ → List Error → MasterController → MasterController
renew_errors none errors c = c
renew_errors (some ref) errors c = record c {
  validation_errors = renewed ref (filter is_validation_error errors) c.validation_errors;
}

unfoldable pub update_instant_actions_validation_error :
    List Error → MasterController → MasterController
update_instant_actions_validation_error errors c =
    renew_errors c.current_instant_actions_ref errors c

-- One entry of the map: its state, or its error, or an error of its message.
unfoldable pub dispatch_instant_action :
    State → String → InstantActionStateCache → MasterController → Outcome
unfolding get_action_error get_instant_actions_validation_error dispatch_instant_action_state
    dispatch_instant_action_error
dispatch_instant_action state action_id cache c = elim (state_of action_id state.action_states) [
  | some s ↦ dispatch_instant_action_state s cache state c
  | none ↦ elim (get_action_error state.errors action_id true) [
    | some e ↦ dispatch_instant_action_error e cache state c
    | none ↦
        elim (get_instant_actions_validation_error cache.instant_actions_ref c.validation_errors) [
          | some e ↦ dispatch_instant_action_error e cache state c
          | none ↦ done c
        ]
  ]
]

-- The loop: each round changes or removes its own entry only, so the entries are those that the map
-- had at first.
unfoldable pub dispatch_instant_actions : State → InstantActionCaches → MasterController → Outcome
unfolding dispatch_instant_action
dispatch_instant_actions state [] c = done c
dispatch_instant_actions state ((action_id, cache) ∷ entries) c =
    dispatch_instant_action state action_id cache c >>= dispatch_instant_actions state entries
