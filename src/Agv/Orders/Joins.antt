-- ===== src/Agv/Orders/Joins.antt =====
-- When `_processOrder` of src/controller/agv-controller.ts stitches an order to the active one.
use vda_5050_lib_js.Common.{
  Bool-cases, arith, eq_Bool, eq_Option, eq_String, eq_of_==, eq_ℕ, false, inl, inr, ltb, refl,
  some, true, ◌<◌, ◌==◌, ◌∙◌, ◌≡◌, ◌≢◌, ◌⊎◌,
}
use vda_5050_lib_js.Vda.{Order, eq_AgvId}
use vda_5050_lib_js.Agv.Controller.{Adapter, Controller, Outcome, done, out_of_fuel, thrown}
use vda_5050_lib_js.Agv.Traversal.Retains.{Retains}
use vda_5050_lib_js.Agv.Queries.{has_active_order}
use vda_5050_lib_js.Agv.Constraints.Route.{IsWellFormed}
use vda_5050_lib_js.Agv.Orders.{
  conforming, is_order_base_stitching, process_executable_order, process_order, process_other_order,
  process_same_order, stitch_or_reject,
}
use vda_5050_lib_js.Agv.Orders.Accept.{accept_stitch, stitch_at, stitched_order}
use vda_5050_lib_js.Agv.Orders.Refused.{IsExecutable, order_refusal_iff}
use vda_5050_lib_js.Agv.Orders.Handled.Stitch.{accept_stitch_at, stitch_at-Retains}
use vda_5050_lib_js.Agv.Orders.Handled.Branches.{executable_with}
use vda_5050_lib_js.Agv.Orders.Bases.{base_end-Starts}

-- Another order than the current one, or a later update of it.
abbrev pub Extends : Order → Order → Type 0
Extends order current =
    (order.order_id ≢ current.order_id) ⊎ (current.order_update_id < order.order_update_id)

module _ (env : Adapter) (order current : Order) (v : Controller) (ok : IsExecutable env order v)
    (active : has_active_order v ≡ true) (here : v.current_order ≡ some current)
    (fits : is_order_base_stitching v order ≡ some true) where
  stitching : stitch_or_reject env order v ≡ accept_stitch env order v
  unfolding stitch_or_reject
  stitching = simp fits

  other_stitches : process_other_order env order v ≡ accept_stitch env order v
  unfolding process_other_order
  other_stitches = simp active stitching

  update_stitches :
      current.order_update_id < order.order_update_id
      → process_same_order env order current v ≡ accept_stitch env order v
  unfolding process_same_order
  update_stitches later =
      let in_time : ltb order.order_update_id current.order_update_id ≡ false = ground arith in
      let new : (order.order_update_id == current.order_update_id) ≡ false = ground arith in
      simp (in_time, new, active) stitching

  later_of_same :
      Extends order current
      → order.order_id ≡ current.order_id
      → current.order_update_id < order.order_update_id
  later_of_same (inl other) same = absurd (other same)
  later_of_same (inr later) same = later

  executable_stitches :
      Extends order current → process_executable_order env order v ≡ accept_stitch env order v
  executable_stitches e = elim (Bool-cases (order.order_id == current.order_id)) [
    | inl same ↦
        simp (executable_with env order v ok (some current) here, same)
          (update_stitches (later_of_same e (eq_of_== order.order_id current.order_id same)))
    | inr other ↦ simp (executable_with env order v ok (some current) here, other) other_stitches
  ]

Retains-done :
    (order : Order) (o : Outcome)
    → Retains order o
    → (v : Controller) × (o ≡ done v) × (v.current_order ≡ some order)
Retains-done order (done v) h = (v, refl, h)
Retains-done order (thrown v) h = absurd h
Retains-done order out_of_fuel h = absurd h

-- A vehicle stitches an executable order that extends the active one, where their bases fit.
pub process_order-stitches :
    (env : Adapter) (order current : Order) (v : Controller)
    → IsExecutable env order v
    → has_active_order v ≡ true
    → v.current_order ≡ some current
    → IsWellFormed current
    → is_order_base_stitching v order ≡ some true
    → Extends order current
    → (v' : Controller) × (process_order env (conforming order) v ≡ done v')
      × (v'.current_order ≡ some (stitched_order current order))
unfolding process_order
process_order-stitches env order current v ok active here w fits e =
    let (end, found) = base_end-Starts current.nodes current.edges w in
    let fine = (order_refusal_iff env order v).1 ok in
    let stitched_at =
      executable_stitches env order current v ok active here fits e
      ∙ accept_stitch_at env order current end v here found in
    let (v', ran, kept) =
      Retains-done (stitched_order current order) (stitch_at env order current end v)
        (stitch_at-Retains env order current end v) in
    (v', simp fine (stitched_at ∙ ran), kept)
