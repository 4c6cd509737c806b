-- ===== src/Agv/Orders.antt =====
-- Inbound orders: `_processOrder`, `_acceptOrder`, `_rejectOrder` and the checks between them in
-- src/controller/agv-controller.ts.
pub mod Accept
pub mod Reject
pub mod Refused
pub mod Bases
pub mod Meeting
pub mod Stitched
pub mod Handled
pub mod Total
pub mod Joins
pub mod Canceling
use vda_5050_lib_js.Agv.ErrorType
use Prim.Native.String
use vda_5050_lib_js.Common.{
  Bool, List, Option, String, [], eq_Option, eq_String, eq_ℕ, false, if◌then◌else◌, ltb, none, not,
  some, true, ◌&&◌, ◌++◌, ◌==◌, ◌∷◌,
}
use vda_5050_lib_js.Vda.{
  EStop, ErrorReference, Node, OperatingMode, Order, State, autoack, automatic, executes_orders,
  is_stopped, manual, no_e_stop, remote, semiautomatic, service, teachin,
}
use vda_5050_lib_js.Agv.Controller.{Adapter, Controller, Outcome, done, thrown}
use vda_5050_lib_js.Agv.Queries.{base_end, has_active_order, has_canceling_order, is_nonempty}
use vda_5050_lib_js.Agv.Updates.{no_changes, update_state}
use vda_5050_lib_js.Agv.Traversal.{or_throw}
use vda_5050_lib_js.Agv.Faults.{OrderRefs, create_order_error, ref, refs_of}
use vda_5050_lib_js.Agv.Constraints.{passed, validate_order_constraints, violated}
use vda_5050_lib_js.Agv.Orders.Accept.{accept_new, accept_stitch, accept_update}
use vda_5050_lib_js.Agv.Orders.Reject.{action_refusal, reject_order}

-- An inbound order, as the validators of the JSON schemas find it.
pub data OrderMessage : Type 0 where
  conforming : Order → OrderMessage
  malformed : OrderRefs → (message : String) → OrderMessage

abbrev e_stop_text : EStop → String
e_stop_text autoack = "AUTOACK"
e_stop_text manual = "MANUAL"
e_stop_text no_e_stop = "NONE"
e_stop_text remote = "REMOTE"

abbrev mode_text : OperatingMode → String
mode_text automatic = "AUTOMATIC"
mode_text manual = "MANUAL"
mode_text semiautomatic = "SEMIAUTOMATIC"
mode_text service = "SERVICE"
mode_text teachin = "TEACHIN"

-- Why an order cannot be executed now, by the state of the vehicle: the text and the reference.
unfoldable pub state_obstacle : State → Option (String × ErrorReference)
unfolding is_stopped executes_orders
state_obstacle s =
    if s.battery_state.charging
    then some ("order is not executable while charging", ref "batteryState.charging" "true")
    else if is_stopped s.safety_state.e_stop
    then some (
      "order is not executable as emergency stop is active",
      ref "safetyState.eStop" (e_stop_text s.safety_state.e_stop),
    )
    else if s.safety_state.field_violation
    then some (
      "order is not executable due to protective field violation",
      ref "safetyState.fieldViolation" "true",
    )
    else if not (executes_orders s.operating_mode)
    then some (
      "order is not executable due to operating mode",
      ref "operatingMode" (mode_text s.operating_mode),
    )
    else none

-- `_isOrderBaseStitching`; `none` is a throw.
unfoldable pub is_order_base_stitching : Controller → Order → Option Bool
unfolding base_end
is_order_base_stitching c order = elim c.current_order [
  | none ↦ some false
  | some current ↦ elim (base_end current.nodes) [
    | none ↦ none
    | some current_base_end ↦ elim order.nodes [
      | [] ↦ none
      | new_base_start ∷ _ ↦ some (
          current_base_end.node_id == new_base_start.node_id
          && current_base_end.sequence_id == new_base_start.sequence_id)
    ]
  ]
]

-- `_isOrderUpdateBaseStitching`.
unfoldable pub is_order_update_base_stitching : Controller → Order → Option Bool
is_order_update_base_stitching c order = elim order.nodes [
  | [] ↦ none
  | new_base_start ∷ _ ↦ some (
      new_base_start.node_id == c.current_state.last_node_id
      && new_base_start.sequence_id == c.current_state.last_node_sequence_id)
]

abbrev reject : Order → String → String → Controller → Controller
reject order type text = reject_order (create_order_error (refs_of order) type text [])

unfoldable pub stitch_or_reject : Adapter → Order → Controller → Outcome
unfolding is_order_base_stitching accept_stitch reject_order
stitch_or_reject env order c = or_throw c (is_order_base_stitching c order) λ stitching.
    if stitching
    then accept_stitch env order c
    else done (
        reject order ErrorType.order_update "stitching order base not extending active order base"
          c)

unfoldable pub update_or_reject : Adapter → Order → Controller → Outcome
unfolding is_order_update_base_stitching accept_update reject_order
update_or_reject env order c = or_throw c (is_order_update_base_stitching c order) λ stitching.
    if stitching
    then accept_update env order c
    else done
        (reject order ErrorType.order_update "order update base not extending current order base" c)

-- `_checkNodeWithinDeviationRange` on the first of these nodes, and a new order if it passes.
unfoldable pub new_from : Adapter → Order → List Node → Controller → Outcome
unfolding accept_new reject_order
new_from env order [] c = thrown c
new_from env order (first ∷ _) c =
    let refs = env.is_node_within_deviation_range first in
    if is_nonempty refs
    then done (
        reject_order
          (create_order_error (refs_of order) ErrorType.order_no_route
            "first node of new order not within deviation range"
            (ref "nodeId" first.node_id ∷ refs))
          c)
    else accept_new env order c

unfoldable pub new_or_reject : Adapter → Order → Controller → Outcome
unfolding new_from
new_or_reject env order = new_from env order order.nodes

-- The order has the id of the current one.
unfoldable pub process_same_order : Adapter → Order → Order → Controller → Outcome
unfolding stitch_or_reject update_or_reject has_active_order
process_same_order env order current c =
    if ltb order.order_update_id current.order_update_id
    then done (reject order ErrorType.order_update "invalid orderUpdateId" c)
    else if order.order_update_id == current.order_update_id
    then done (update_state no_changes true c)
    else if has_active_order c
    then stitch_or_reject env order c
    else update_or_reject env order c

unfoldable pub process_other_order : Adapter → Order → Controller → Outcome
unfolding stitch_or_reject new_or_reject has_active_order
process_other_order env order c =
    if has_active_order c then stitch_or_reject env order c else new_or_reject env order c

-- `order.orderId === this.currentOrder?.orderId`, and the branches under it.
unfoldable pub process_executable_order : Adapter → Order → Controller → Outcome
unfolding process_same_order process_other_order
process_executable_order env order c = elim c.current_order [
  | none ↦ process_other_order env order c
  | some current ↦
      if order.order_id == current.order_id
      then process_same_order env order current c
      else process_other_order env order c
]

abbrev reject_with :
    Order → Option (String × String × List ErrorReference) → Controller → Outcome → Outcome
reject_with order none c otherwise = otherwise
reject_with order (some (type, text, refs)) c otherwise =
    done (reject_order (create_order_error (refs_of order) type text refs) c)

-- The first check that refuses the order: its error's type, text and references.
unfoldable pub order_refusal :
    Adapter → Order → Controller → Option (String × String × List ErrorReference)
unfolding has_canceling_order state_obstacle action_refusal
order_refusal env order c = elim (validate_order_constraints order) [
  | violated message ↦
      some (ErrorType.order_validation, String.◌++◌ "invalid order: Error: " message, [])
  | passed _ ↦
      if has_canceling_order c
      then some (ErrorType.order, "active order is being canceled", [])
      else let route = env.is_route_traversable order.nodes order.edges in
        if is_nonempty route
        then some (ErrorType.order_no_route, "order route is not traversable", route)
        else elim (action_refusal env order) [
          | some refs ↦ some (ErrorType.order, "order action is not executable", refs)
          | none ↦ elim (state_obstacle c.current_state) [
            | some (text, r) ↦ some (ErrorType.order, text, r ∷ [])
            | none ↦ none
          ]
        ]
]

unfoldable pub process_order : Adapter → OrderMessage → Controller → Outcome
unfolding order_refusal process_executable_order reject_order
process_order env (malformed refs message) c = done (
    reject_order
      (create_order_error refs ErrorType.order_validation (String.◌++◌ "invalid order: " message)
        [])
      c)
process_order env (conforming order) c =
    reject_with order (order_refusal env order c) c (process_executable_order env order c)
