-- ===== src/Agv/Examples/Orders.antt =====
-- Tests of the handling of orders, and the theorems about it at concrete orders.
use vda_5050_lib_js.Common.{[], arith, none, refl, some, true, ◌↔◌, ◌∷◌, ◌≡◌}
use vda_5050_lib_js.Vda.{hard, null}
use vda_5050_lib_js.Agv.Controller.{ActionContext, Controller, done}
use vda_5050_lib_js.Agv.Faults.{ref}
use vda_5050_lib_js.Agv.Constraints.{passed, validate_order_constraints}
use vda_5050_lib_js.Agv.Constraints.Route.{IsWellFormed}
use vda_5050_lib_js.Agv.Constraints.Complete.{validate_iff}
use vda_5050_lib_js.Agv.Orders.{conforming, is_order_base_stitching, order_refusal, process_order}
use vda_5050_lib_js.Agv.Orders.Accept.{stitched_order}
use vda_5050_lib_js.Agv.Orders.Refused.{IsExecutable, IsRejected, order_refusal_iff}
use vda_5050_lib_js.Agv.Orders.Stitched.{stitched_order-IsWellFormed}
use vda_5050_lib_js.Agv.Examples.{
  able, action, beep, extension, idle, idle_state, lift, place, trip, under_way, way,
}
use vda_5050_lib_js.Agv.Orders.Total.{process_order-Handled}
use vda_5050_lib_js.Agv.Orders.Handled.{Handled, IsValid}
use vda_5050_lib_js.Agv.Traversal.Runs.{process_actions-runs, run_next}
use vda_5050_lib_js.Agv.Traversal.{
  process_edge, process_edge_action, process_edge_actions, process_node_action,
  process_node_actions, traverse,
}
use vda_5050_lib_js.Agv.Orders.Canceling.{IsCanceling, cancel_order-cancels}
use vda_5050_lib_js.Agv.Status.{instant_context, update_action_status}
use vda_5050_lib_js.Agv.Status.Cancel.{cancel_order}
use vda_5050_lib_js.Agv.Orders.Handled.Rejections.{process_order-IsRejected, unexecutable}

trip-IsWellFormed : IsWellFormed trip
trip-IsWellFormed = ground arith

extension-IsWellFormed : IsWellFormed extension
extension-IsWellFormed = ground arith

validate_iff_example : (validate_order_constraints trip ≡ passed tt) ↔ IsWellFormed trip
validate_iff_example = validate_iff trip

order_refusal_iff_example : (order_refusal able trip idle ≡ none) ↔ IsExecutable able trip idle
order_refusal_iff_example = order_refusal_iff able trip idle

-- A vehicle that is being charged.
abbrev pub charging : Controller
charging = record idle {
  current_state = record idle_state { battery_state = record { charging = true; details = null } };
}

refused_while_charging :
    order_refusal able trip charging
    ≡ some (
      "orderError",
      "order is not executable while charging",
      ref "batteryState.charging" "true" ∷ [],
    )
unfolding order_refusal validate_order_constraints
refused_while_charging = refl

process_order-IsRejected_example :
    (c' : Controller) × (process_order able (conforming trip) charging ≡ done c')
    × IsRejected charging "orderError" c'
process_order-IsRejected_example =
    process_order-IsRejected able (conforming trip) charging "orderError" (
      unexecutable trip "orderError" "order is not executable while charging"
        (ref "batteryState.charging" "true" ∷ []) refused_while_charging)

under_way_fits : is_order_base_stitching under_way extension ≡ some true
unfolding is_order_base_stitching
under_way_fits = refl

stitched_order-IsWellFormed_example : IsWellFormed (stitched_order trip extension)
stitched_order-IsWellFormed_example =
    stitched_order-IsWellFormed under_way trip extension refl under_way_fits trip-IsWellFormed
      extension-IsWellFormed

idle-IsValid : IsValid idle
idle-IsValid current e = absurd (cc)

process_order-Handled_example :
    (c' : Controller) × (process_order able (conforming trip) idle ≡ done c')
    × Handled able trip idle c'
process_order-Handled_example = process_order-Handled able trip idle idle-IsValid

-- The lift has ended, and the beep is left.
process_actions-runs_example :
    (process_node_actions (place "n1" 0 true (lift ∷ beep ∷ [])) (some lift) under_way
      ≡ run_next
          (process_node_action (place "n1" 0 true (lift ∷ beep ∷ [])))
          (process_edge (place "n1" 0 true (lift ∷ beep ∷ [])))
          (beep ∷ [])
          under_way)
    × (process_edge_actions (way "e1" 1 "n1" "n2" true) (some lift) under_way
        ≡ run_next
            (process_edge_action (way "e1" 1 "n1" "n2" true))
            (traverse (way "e1" 1 "n1" "n2" true))
            []
            under_way)
process_actions-runs_example =
    process_actions-runs (place "n1" 0 true (lift ∷ beep ∷ [])) (way "e1" 1 "n1" "n2" true)
      (some lift) under_way

abbrev cancellation : ActionContext
cancellation = instant_context (action "i3" "cancelOrder" hard) (some true) (some "o1")

cancel_order-cancels_example :
    (d : Controller) × (cancel_order (update_action_status able) cancellation under_way ≡ done d)
    × IsCanceling trip cancellation under_way d
    × (order_refusal able trip d ≡ some ("orderError", "active order is being canceled", []))
cancel_order-cancels_example =
    cancel_order-cancels able cancellation trip trip under_way refl trip-IsWellFormed
