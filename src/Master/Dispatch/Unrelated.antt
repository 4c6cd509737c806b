-- ===== src/Master/Dispatch/Unrelated.antt =====
-- Errors that name no order: `_dispatchState` of src/controller/master-controller.ts.
use vda_5050_lib_js.Agv.ErrorType
use vda_5050_lib_js.Common.{
  ap, eq_Bool, eq_Option, eq_String, eq_ℕ, false, none, some, ℕ, ◌!=◌, ◌&&◌, ◌∙◌, ◌∷◌, ◌≡◌,
}
use vda_5050_lib_js.Vda.{AgvId, Error, State, eq_AgvId}
use vda_5050_lib_js.Master.Controller.{MasterController, emit, order_processed}
use vda_5050_lib_js.Master.Queries.{references}
use vda_5050_lib_js.Master.Caches.{
  get_last_assigned_order_state_cache, get_order_state_cache, remove_order_state_cache,
}
use vda_5050_lib_js.Master.Dispatch.{dispatch_rejection, last_value, rejected_by, rejected_cache}
use vda_5050_lib_js.Master.Caches.Found.{get_order_state_cache_lem}
use vda_5050_lib_js.Master.Consistent.{IsConsistent}
use vda_5050_lib_js.Master.Consistent.Removal.{removed-IsDropped}
use vda_5050_lib_js.Master.Dispatch.Rejected.{removed-events}
use vda_5050_lib_js.Master.Dispatch.References.{Without, last_value-Without}

unrelated-rejected :
    (a : AgvId) (e : Error) (c : MasterController)
    → Without "topic" (references e)
    → Without "orderId" (references e)
    → Without "actionId" (references e)
    → rejected_cache a e c ≡ get_last_assigned_order_state_cache a c
unfolding rejected_cache
unrelated-rejected a e c topic order action =
    let update = last_value "orderUpdateId" (references e) in
    ap
      (λ x.
        rejected_by a e.error_type (x && e.error_type != ErrorType.order)
          (last_value "topic" (references e)) (last_value "orderId" (references e)) update c)
      action
    ∙ ap (λ x. rejected_by a e.error_type false x (last_value "orderId" (references e)) update c)
        (last_value-Without "topic" (references e) topic)
    ∙ ap (λ x. rejected_by a e.error_type false none x update c)
        (last_value-Without "orderId" (references e) order)

-- An error that names no topic, no order and no action, whatever its type, ends the order that was
-- assigned last to the vehicle: its handler is told that the order is processed with this error,
-- and the order is forgotten.
pub unrelated_error-ends_order :
    (a : AgvId) (state : State) (e : Error) (k : ℕ) (c : MasterController)
    → Without "topic" (references e)
    → Without "orderId" (references e)
    → Without "actionId" (references e)
    → IsConsistent c
    → get_last_assigned_order_state_cache a c ≡ some k
    → ((dispatch_rejection a state e c).events
        ≡ order_processed k (some e) false false state ∷ c.events)
      × (get_order_state_cache
            (c.caches k).agv_id
            (c.caches k).order.order_id
            (c.caches k).order.order_update_id
            (dispatch_rejection a state e c)
          ≡ none)
unfolding dispatch_rejection
unrelated_error-ends_order a state e k c topic order action v last =
    let found : rejected_cache a e c ≡ some k =
      unrelated-rejected a e c topic order action ∙ last in
    let removed = remove_order_state_cache k false c in
    rw (found, dispatch_rejection)
      (
        ap (λ es. order_processed k (some e) false false state ∷ es) (removed-events k c),
        get_order_state_cache_lem (c.caches k).agv_id (c.caches k).order.order_id
              (c.caches k).order.order_update_id
              (emit (order_processed k (some e) false false state) removed)
            ∙ (removed-IsDropped c v k false).gone,
      )
