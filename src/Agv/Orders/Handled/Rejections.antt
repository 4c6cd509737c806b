-- ===== src/Agv/Orders/Handled/Rejections.antt =====
-- Every way in which `_processOrder` of src/controller/agv-controller.ts rejects a message.
use Prim.Native.String
use vda_5050_lib_js.Agv.ErrorType
use vda_5050_lib_js.Common.{
  ==_of_eq, Bool-cases, List, Option-cases, String, [], arith, eq_Bool, eq_Option, eq_String,
  eq_of_==, eq_ℕ, false, if◌then◌else◌, inl, inr, ltb, none, refl, some, true, ◌==◌, ◌∙◌, ◌∷◌, ◌≡◌,
}
use vda_5050_lib_js.Vda.{ErrorReference, Node, Order, eq_AgvId}
use vda_5050_lib_js.Agv.Controller.{Adapter, Controller, Outcome, done}
use vda_5050_lib_js.Agv.Queries.{has_active_order, is_nonempty}
use vda_5050_lib_js.Agv.Faults.{OrderRefs, create_order_error, refs_of}
use vda_5050_lib_js.Agv.Orders.{
  OrderMessage, conforming, is_order_base_stitching, malformed, new_from, new_or_reject,
  order_refusal, process_executable_order, process_order, process_other_order, process_same_order,
  stitch_or_reject, update_or_reject,
}
use vda_5050_lib_js.Agv.Orders.Reject.{reject_order}
use vda_5050_lib_js.Agv.Orders.Refused.{
  IsExecutable, IsRejected, order_error-IsRejected, order_refusal_iff,
}
use vda_5050_lib_js.Agv.Orders.Handled.{
  Continues, Declined, IsOther, IsUpdateOf, StartNear, apart_update, far, outdated,
}
use vda_5050_lib_js.Agv.Orders.Handled.Start.{no_refs, update_answers}
use vda_5050_lib_js.Agv.Orders.Handled.Branches.{executable_with}
use vda_5050_lib_js.Agv.Constraints.Route.{Starts}

-- Why a message is rejected, with the type of the error: it does not conform to its schema, a check
-- refuses its order, or the executable order does not go with the current one.
pub data Refuses (env : Adapter) (c : Controller) : OrderMessage → String → Type 0 where
  unreadable :
      (refs : OrderRefs) (message : String)
      → Refuses env c (malformed refs message) ErrorType.order_validation
  unexecutable :
      (order : Order) (type text : String) (refs : List ErrorReference)
      → order_refusal env order c ≡ some (type, text, refs)
      → Refuses env c (conforming order) type
  unjoined :
      (order : Order)
      → IsExecutable env order c
      → has_active_order c ≡ true
      → Continues order c
      → is_order_base_stitching c order ≡ some false
      → Refuses env c (conforming order) ErrorType.order_update
  unsuited :
      (order : Order) (type : String)
      → IsExecutable env order c
      → Declined env order c type
      → Refuses env c (conforming order) type

abbrev Rejects : Controller → String → Outcome → Type 0
Rejects c type o = (c' : Controller) × (o ≡ done c') × IsRejected c type c'

module _ (env : Adapter) (order : Order) (c : Controller) (ok : IsExecutable env order c) where
  rejects :
      (type text : String) (refs : List ErrorReference)
      → Rejects c type (done (reject_order (create_order_error (refs_of order) type text refs) c))
  rejects type text refs = (
    reject_order (create_order_error (refs_of order) type text refs) c,
    refl,
    order_error-IsRejected (refs_of order) type text refs c,
  )

  other_lem :
      IsOther order c → process_executable_order env order c ≡ process_other_order env order c
  other_lem other = elim (Option-cases c.current_order) [
    | inl idle ↦ executable_with env order c ok none idle
    | inr (current, here) ↦ elim (Bool-cases (order.order_id == current.order_id)) [
      | inl same ↦ absurd (other current here (eq_of_== order.order_id current.order_id same))
      | inr differ ↦ executable_with env order c ok (some current) here ∙ simp differ refl
    ]
  ]

  same_lem :
      (current : Order)
      → c.current_order ≡ some current
      → order.order_id ≡ current.order_id
      → process_executable_order env order c ≡ process_same_order env order current c
  same_lem current here same =
      let e = ==_of_eq order.order_id current.order_id same in
      executable_with env order c ok (some current) here ∙ simp e refl

  update_lem :
      (current : Order)
      → IsUpdateOf order current c
      → process_executable_order env order c ≡ (
          if has_active_order c then stitch_or_reject env order c else update_or_reject env order c)
  unfolding process_same_order
  update_lem current u =
      let late : ltb order.order_update_id current.order_update_id ≡ false =
        (let h = u.later in ground arith) in
      let again : (order.order_update_id == current.order_update_id) ≡ false =
        (let h = u.later in ground arith) in
      same_lem current u.here u.same ∙ simp (late, again) refl

  active_lem :
      has_active_order c ≡ true
      → Continues order c
      → process_executable_order env order c ≡ stitch_or_reject env order c
  unfolding process_other_order
  active_lem h k = elim k [
    | inl other ↦ other_lem other ∙ simp h refl
    | inr (current, u) ↦ update_lem current u ∙ simp h refl
  ]

  far-Rejects :
      (nodes : List Node)
      → Starts nodes order.edges
      → ¬ StartNear env nodes
      → Rejects c ErrorType.order_no_route (new_from env order nodes c)
  unfolding new_from
  far-Rejects [] w away = absurd w
  far-Rejects (n ∷ nodes) w away =
      let refs = env.is_node_within_deviation_range n in
      elim (Bool-cases (is_nonempty refs)) [
        | inl h ↦ simp h (rejects ErrorType.order_no_route _ _)
        | inr h ↦ absurd (away (no_refs refs h))
      ]

  unjoined-Rejects :
      has_active_order c ≡ true
      → Continues order c
      → is_order_base_stitching c order ≡ some false
      → Rejects c ErrorType.order_update (process_executable_order env order c)
  unfolding stitch_or_reject
  unjoined-Rejects h k e = rw (active_lem h k) (simp e (rejects ErrorType.order_update _ []))

  executable-Rejects :
      (type : String)
      → Declined env order c type
      → Rejects c type (process_executable_order env order c)
  unfolding process_same_order process_other_order update_or_reject new_or_reject
  executable-Rejects _ (outdated current here same late) =
      let e : ltb order.order_update_id current.order_update_id ≡ true = ground arith in
      rw (same_lem current here same) (simp e (rejects ErrorType.order_update _ []))
  executable-Rejects _ (apart_update current h u away) = rw (update_lem current u) (
      simp h (elim (update_answers order c order.nodes refl ok.formed) [
        | inl (e, at) ↦ absurd (away at)
        | inr (e, _) ↦ simp e (rejects ErrorType.order_update _ [])
      ]))
  executable-Rejects _ (far h other away) =
      rw (other_lem other) (simp h (far-Rejects order.nodes ok.formed away))

-- A message that does not conform to its schema, an order that a check refuses, and an executable
-- order that is outdated, too far away or apart from the current order are rejected with an error of
-- the type that goes with it: it is added to the errors, they are published once, and nothing else
-- changes in any field, but for the new timestamp.
pub process_order-IsRejected :
    (env : Adapter) (message : OrderMessage) (c : Controller) (type : String)
    → Refuses env c message type
    → (c' : Controller) × (process_order env message c ≡ done c') × IsRejected c type c'
unfolding process_order
process_order-IsRejected env _ c _ (unreadable refs message) = (
  reject_order
      (create_order_error refs ErrorType.order_validation (String.◌++◌ "invalid order: " message)
        [])
      c,
  refl,
  order_error-IsRejected refs ErrorType.order_validation _ [] c,
)
process_order-IsRejected env _ c type (unexecutable order _ text refs h) = (
  reject_order (create_order_error (refs_of order) type text refs) c,
  rw h,
  order_error-IsRejected (refs_of order) type text refs c,
)
process_order-IsRejected env _ c type (unsuited order _ ok d) =
    let fine = (order_refusal_iff env order c).1 ok in
    simp fine (executable-Rejects env order c ok type d)
process_order-IsRejected env _ c _ (unjoined order ok h k e) =
    let fine = (order_refusal_iff env order c).1 ok in
    simp fine (unjoined-Rejects env order c ok h k e)
