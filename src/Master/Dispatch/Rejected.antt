-- ===== src/Master/Dispatch/Rejected.antt =====
-- From the refusal of an order on the vehicle to the handler of the master control: `_rejectOrder`
-- of src/controller/agv-controller.ts and `_dispatchState` of src/controller/master-controller.ts.
use vda_5050_lib_js.Common.{
  All, List, String, [], ap, false, none, refl, some, sym, ℕ, ◌++◌, ◌∙◌, ◌∷◌, ◌≡◌,
}
use vda_5050_lib_js.Vda.{AgvId, Error, ErrorReference, Order, State}
use vda_5050_lib_js.Agv.Faults.{create_order_error, refs_of}
use vda_5050_lib_js.Agv.Orders.{conforming, order_refusal, process_order}
use vda_5050_lib_js.Agv.Orders.Reject.{reject_order}
use vda_5050_lib_js.Master.Controller.{MasterController, order_processed}
use vda_5050_lib_js.Master.Caches.{get_order_state_cache, remove_order_state_cache}
use vda_5050_lib_js.Master.Dispatch.{dispatch_rejection, dispatch_rejections, rejected_cache}
use vda_5050_lib_js.Master.Caches.Found.{OtherKey, get_order_state_cache_lem}
use vda_5050_lib_js.Master.Caches.Dropped.{IsDropped}
use vda_5050_lib_js.Master.Consistent.{HoldsOrder, IsConsistent}
use vda_5050_lib_js.Master.Consistent.Removal.{removed-IsDropped}
use vda_5050_lib_js.Agv.Controller.{Adapter, Controller, done}
use vda_5050_lib_js.Master.Dispatch.References.{
  AreDetails, details, rejected_cache-order_error, type_lem,
}

-- An error that rejects no order of the vehicle.
abbrev pub RejectsNone : AgvId → MasterController → Error → Type 0
RejectsNone a c e = rejected_cache a e c ≡ none

dispatch_rejection-RejectsNone :
    (a : AgvId) (state : State) (e : Error) (c : MasterController)
    → RejectsNone a c e
    → dispatch_rejection a state e c ≡ c
unfolding dispatch_rejection
dispatch_rejection-RejectsNone a state e c h = rw (h, dispatch_rejection) refl

dispatch_rejections-RejectsNone :
    (a : AgvId) (state : State) (es : List Error) (e : Error) (c : MasterController)
    → All (RejectsNone a c) es
    → dispatch_rejections a state (es ++ e ∷ []) c ≡ dispatch_rejection a state e c
unfolding dispatch_rejections
dispatch_rejections-RejectsNone a state [] e c h = refl
dispatch_rejections-RejectsNone a state (f ∷ es) e c (here, later) =
    ap (dispatch_rejections a state (es ++ e ∷ []))
      (dispatch_rejection-RejectsNone a state f c here)
    ∙ dispatch_rejections-RejectsNone a state es e c later

-- What the master control makes of the refusal.
pub record IsReported (a : AgvId) (order : Order) (k : ℕ) (state : State) (e : Error)
    (c d : MasterController) : Type 0 where
  pub told : d.events ≡ order_processed k (some e) false false state ∷ c.events
  pub forgotten : get_order_state_cache a order.order_id order.order_update_id d ≡ none
  pub others :
      (b : AgvId) (i : String) (u : ℕ)
      → OtherKey a order.order_id order.order_update_id b i u
      → get_order_state_cache b i u d ≡ get_order_state_cache b i u c

pub removed-events :
    (k : ℕ) (c : MasterController) → (remove_order_state_cache k false c).events ≡ c.events
unfolding remove_order_state_cache
removed-events k c = refl

removed_at :
    (a : AgvId) (order : Order) (k : ℕ) (c : MasterController)
    → IsConsistent c
    → HoldsOrder (c.caches k) a order.order_id order.order_update_id
    → IsDropped a order.order_id order.order_update_id c.current_orders
        (remove_order_state_cache k false c).current_orders
removed_at a order k c v (agv, id, update) = rw⁻¹ (agv, id, update) (removed-IsDropped c v k false)

rejected-IsReported :
    (a : AgvId) (order : Order) (k : ℕ) (state : State) (e : Error) (c : MasterController)
    → IsConsistent c
    → rejected_cache a e c ≡ some k
    → get_order_state_cache a order.order_id order.order_update_id c ≡ some k
    → IsReported a order k state e c (dispatch_rejection a state e c)
unfolding dispatch_rejection
rejected-IsReported a order k state e c v f g =
    let found = sym (get_order_state_cache_lem a order.order_id order.order_update_id c) ∙ g in
    let (_, holds) = v.held a order.order_id order.order_update_id k found in
    let dropped = removed_at a order k c v holds in
    rw (f, dispatch_rejection)
      (record {
        told = ap (λ es. order_processed k (some e) false false state ∷ es) (removed-events k c);
        forgotten =
            get_order_state_cache_lem a order.order_id order.order_update_id
              (remove_order_state_cache k false c)
            ∙ dropped.gone;
        others = λ b i u other.
            get_order_state_cache_lem b i u (remove_order_state_cache k false c)
            ∙ dropped.others b i u other
            ∙ sym (get_order_state_cache_lem b i u c);
      })

-- An order that a check on the vehicle refuses is reported by one error in the vehicle's next
-- state. If that error names no other order and no action, and the errors before it reject none,
-- the master control that assigned the order tells exactly its handler of that error on this state,
-- and forgets exactly this order.
pub refusal-IsReported :
    (env : Adapter) (order : Order) (vehicle : Controller) (type text : String)
    (refs : List ErrorReference) (a : AgvId) (k : ℕ) (c : MasterController)
    → order_refusal env order vehicle ≡ some (type, text, refs)
    → AreDetails type refs
    → IsConsistent c
    → get_order_state_cache a order.order_id order.order_update_id c ≡ some k
    → All (RejectsNone a c) vehicle.current_state.errors
    → (vehicle' : Controller) × (e : Error) × (process_order env (conforming order) vehicle
        ≡ done vehicle')
      × (e.error_type ≡ type)
      × IsReported a order k vehicle'.current_state e c
          (dispatch_rejections a vehicle'.current_state vehicle'.current_state.errors c)
unfolding process_order reject_order
refusal-IsReported env order vehicle type text refs a k c h details v found older =
    let vehicle' = reject_order (create_order_error (refs_of order) type text refs) vehicle in
    let e = create_order_error (refs_of order) type text refs vehicle.next_identity in
    (
      vehicle',
      e,
      rw h refl,
      type_lem order type text refs vehicle.next_identity details,
      rw
          (dispatch_rejections-RejectsNone a vehicle'.current_state vehicle.current_state.errors e c
            older)
          (rejected-IsReported a order k vehicle'.current_state e c v
            (rejected_cache-order_error order type text refs vehicle.next_identity details a c
              ∙ found)
            found),
    )
