-- ===== src/Agv/Orders/Handled/Stitch.antt =====
-- An order that is stitched to the active one, or is rejected there.
use vda_5050_lib_js.Agv.ErrorType
use vda_5050_lib_js.Common.{
  Bool-cases, [], ap, eq_Option, eq_String, eq_ℕ, inl, inr, refl, some, true, ◌++◌, ◌∙◌, ◌≡◌,
}
use vda_5050_lib_js.Vda.{Node, Order, eq_AgvId}
use vda_5050_lib_js.Agv.Controller.{Adapter, Controller}
use vda_5050_lib_js.Agv.Traversal.{or_throw}
use vda_5050_lib_js.Agv.Traversal.Retains.{Retains, process_edge-Retains}
use vda_5050_lib_js.Agv.Queries.{base_end, has_active_order}
use vda_5050_lib_js.Agv.Updates.{update_state}
use vda_5050_lib_js.Agv.Orders.{stitch_or_reject}
use vda_5050_lib_js.Agv.Orders.Accept.{
  accept_stitch, extend_paused_node, first_actions, report_stitched, stitch_at, stitched_order,
  waits_at,
}
use vda_5050_lib_js.Agv.Orders.Refused.{IsExecutable, order_error-IsRejected}
use vda_5050_lib_js.Agv.Orders.Handled.{Continues, Handles, IsValid, retained, stitched, unjoined}
use vda_5050_lib_js.Agv.Faults.{refs_of}
use vda_5050_lib_js.Agv.Orders.Meeting.{Meets, stitching-answers}
use vda_5050_lib_js.Agv.Orders.Bases.{base_end-Starts}

pub stitch_at-Retains :
    (env : Adapter) (order current : Order) (end : Node) (c : Controller)
    → Retains (stitched_order current order) (stitch_at env order current end c)
unfolding stitch_at report_stitched update_state
stitch_at-Retains env order current end c =
    let now = stitched_order current order in
    let extended = record end { actions = end.actions ++ first_actions order.nodes } in
    let reported = report_stitched env current order (extend_paused_node end extended c) in
    elim (Bool-cases (waits_at c extended)) [
      | inl waits ↦ simp waits (process_edge-Retains now extended reported refl)
      | inr busy ↦ simp busy refl
    ]

pub accept_stitch_at :
    (env : Adapter) (order current : Order) (end : Node) (c : Controller)
    → c.current_order ≡ some current
    → base_end current.nodes ≡ some end
    → accept_stitch env order c ≡ stitch_at env order current end c
unfolding accept_stitch
accept_stitch_at env order current end c here found =
    ap (λ o. or_throw c o λ k. or_throw c (base_end k.nodes) λ m. stitch_at env order k m c) here
    ∙ ap (λ o. or_throw c o λ m. stitch_at env order current m c) found

module _ (env : Adapter) (order : Order) (c : Controller) (ok : IsExecutable env order c) where
  stitch_at-Handles :
      (current : Order) (end : Node)
      → has_active_order c ≡ true
      → c.current_order ≡ some current
      → Continues order c
      → Meets current.nodes order.nodes
      → Handles env order c (stitch_at env order current end c)
  stitch_at-Handles current end h here k meets =
      retained env order (stitched_order current order) c (stitch_at env order current end c)
        (stitch_at-Retains env order current end c)
        λ c' now. stitched current c' ok h here k meets now

  accept_stitch-Handles :
      (current : Order)
      → IsValid c
      → has_active_order c ≡ true
      → c.current_order ≡ some current
      → Continues order c
      → Meets current.nodes order.nodes
      → Handles env order c (accept_stitch env order c)
  accept_stitch-Handles current v h here k meets =
      let (end, found) = base_end-Starts current.nodes current.edges (v current here) in
      simp (accept_stitch_at env order current end c here found)
        (stitch_at-Handles current end h here k meets)

  pub stitch-Handles :
      IsValid c
      → has_active_order c ≡ true
      → Continues order c
      → Handles env order c (stitch_or_reject env order c)
  unfolding stitch_or_reject
  stitch-Handles v h k = elim (stitching-answers order c v ok.formed) [
    | inl (e, (current, here, meets)) ↦ simp e (accept_stitch-Handles current v h here k meets)
    | inr (e, away) ↦ simp e (
        unjoined _ ok h k away
          (order_error-IsRejected (refs_of order) ErrorType.order_update _ [] c))
  ]
