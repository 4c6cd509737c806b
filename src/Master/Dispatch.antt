-- ===== src/Master/Dispatch.antt =====
-- An inbound state: `_dispatchState` of src/controller/master-controller.ts.
pub mod Unrelated
pub mod References
pub mod Rejected
use vda_5050_lib_js.Mqtt.AgvIdMap
use vda_5050_lib_js.Agv.ErrorType
use vda_5050_lib_js.Common.{
  Bool, List, Option, String, [], any, eq_Bool, eq_Option, eq_String, eq_ℕ, false, if◌then◌else◌,
  none, some, ℕ, ◌!=◌, ◌&&◌, ◌==◌, ◌∷◌,
}
use vda_5050_lib_js.Vda.{AgvId, Error, ErrorReference, State, eq_AgvId}
use vda_5050_lib_js.Common.Decimal.{parse_int}
use vda_5050_lib_js.Mqtt.AgvIdMap.{AgvIdMap, get}
use vda_5050_lib_js.Master.Controller.{
  Environment, MasterController, Outcome, done, emit, order_processed, ◌>>=◌,
}
use vda_5050_lib_js.Master.Queries.{references}
use vda_5050_lib_js.Master.Caches.{
  get_last_assigned_order_state_cache, get_order_state_cache, remove_order_state_cache,
}
use vda_5050_lib_js.Master.Orders.{dispatch_order_state}
use vda_5050_lib_js.Master.Instants.{
  caches_of, dispatch_instant_actions, update_instant_actions_validation_error,
}

-- The value of the last reference with the key.
unfoldable pub last_value : String → List ErrorReference → Option String
last_value key [] = none
last_value key (r ∷ rs) = elim (last_value key rs) [
  | some value ↦ some value
  | none ↦ if r.reference_key == key then some r.reference_value else none
]

abbrev pub given_and_other : Option String → String → Bool
given_and_other none topic = false
given_and_other (some t) topic = t != topic

-- The cache under an order id and the text of an order update id; a text that is no number leads to
-- none.
abbrev pub cache_at : AgvId → String → Option ℕ → MasterController → Option ℕ
cache_at agv_id order_id none c = none
cache_at agv_id order_id (some order_update_id) c =
    get_order_state_cache agv_id order_id order_update_id c

-- The cache of the order that an error rejects, if it does: from the last values of its references,
-- and whether it is the error of a failed action of an order.
abbrev pub rejected_by :
    AgvId
    → String
    → Bool
    → (topic order_id order_update_id : Option String) → MasterController
    → Option ℕ
rejected_by agv_id type of_action topic order_id order_update_id c =
    if given_and_other topic "order" then none else if of_action then none else elim order_id [
      | some id ↦ elim order_update_id [
        | some text ↦ cache_at agv_id id (parse_int text) c
        | none ↦ none
      ]
      | none ↦
          if topic == some "order" && type == ErrorType.order_validation
          then none
          else get_last_assigned_order_state_cache agv_id c
    ]

abbrev pub is_action_error : String → List ErrorReference → Bool
is_action_error type refs = any (λ r. r.reference_key == "actionId") refs && type != ErrorType.order

unfoldable pub rejected_cache : AgvId → Error → MasterController → Option ℕ
unfolding last_value parse_int get_order_state_cache get_last_assigned_order_state_cache
rejected_cache agv_id e c =
    let refs = references e in
    rejected_by agv_id e.error_type (is_action_error e.error_type refs) (last_value "topic" refs)
      (last_value "orderId" refs) (last_value "orderUpdateId" refs) c

unfoldable pub dispatch_rejection : AgvId → State → Error → MasterController → MasterController
unfolding rejected_cache remove_order_state_cache
dispatch_rejection agv_id state e c = elim (rejected_cache agv_id e c) [
  | none ↦ c
  | some k ↦
      emit (order_processed k (some e) false false state) (remove_order_state_cache k false c)
]

unfoldable pub dispatch_rejections :
    AgvId → State → List Error → MasterController → MasterController
unfolding dispatch_rejection
dispatch_rejections agv_id state [] c = c
dispatch_rejections agv_id state (e ∷ es) c =
    dispatch_rejections agv_id state es (dispatch_rejection agv_id state e c)

abbrev pub dispatch_active_order : Environment → AgvId → State → MasterController → Outcome
dispatch_active_order env agv_id state c =
    elim (get_order_state_cache agv_id state.order_id state.order_update_id c) [
      | none ↦ done c
      | some k ↦ dispatch_order_state env state k c
    ]

abbrev pub dispatch_pending_actions : AgvId → State → MasterController → Outcome
dispatch_pending_actions agv_id state c =
    let updated = update_instant_actions_validation_error state.errors c in
    dispatch_instant_actions state (caches_of agv_id updated) updated

unfoldable pub dispatch_state : Environment → State → AgvId → MasterController → Outcome
unfolding dispatch_rejections get_order_state_cache dispatch_order_state
    update_instant_actions_validation_error dispatch_instant_actions AgvIdMap.get
dispatch_state env state agv_id c =
    dispatch_active_order env agv_id state (dispatch_rejections agv_id state state.errors c)
    >>= dispatch_pending_actions agv_id state
