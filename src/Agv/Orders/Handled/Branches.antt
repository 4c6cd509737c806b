-- ===== src/Agv/Orders/Handled/Branches.antt =====
-- The branches of `_processOrder` behind its checks.
use vda_5050_lib_js.Agv.ErrorType
use vda_5050_lib_js.Common.{
  Bool-cases, Option, Option-cases, ap, arith, eq_Bool, eq_Option, eq_String, eq_of_==, eq_ℕ,
  if◌then◌else◌, inl, inr, ltb, ne_of_==, none, refl, some, ◌==◌, ◌≡◌,
}
use vda_5050_lib_js.Vda.{Order, eq_AgvId}
use vda_5050_lib_js.Agv.Controller.{Adapter, Controller}
use vda_5050_lib_js.Agv.Queries.{has_active_order}
use vda_5050_lib_js.Agv.Updates.{update_state}
use vda_5050_lib_js.Agv.Orders.{process_executable_order, process_other_order, process_same_order}
use vda_5050_lib_js.Agv.Orders.Refused.{IsExecutable}
use vda_5050_lib_js.Agv.Orders.Handled.{Handles, IsOther, IsUpdateOf, IsValid, discarded, outdated}
use vda_5050_lib_js.Agv.Orders.Handled.Start.{decline-Handles, new-Handles, update-Handles}
use vda_5050_lib_js.Agv.Orders.Handled.Stitch.{stitch-Handles}

module _ (env : Adapter) (order : Order) (c : Controller) (ok : IsExecutable env order c) where
  other-Handles :
      IsValid c → IsOther order c → Handles env order c (process_other_order env order c)
  unfolding process_other_order
  other-Handles v other = elim (Bool-cases (has_active_order c)) [
    | inl h ↦ simp h (stitch-Handles env order c ok v h (inl other))
    | inr h ↦ simp h (new-Handles env order c ok h other)
  ]

  same-Handles :
      (current : Order)
      → IsValid c
      → c.current_order ≡ some current
      → order.order_id ≡ current.order_id
      → Handles env order c (process_same_order env order current c)
  unfolding process_same_order update_state
  same-Handles current v here same =
      elim (Bool-cases (ltb order.order_update_id current.order_update_id)) [
        | inl late ↦ simp late (
            decline-Handles env order c ok ErrorType.order_update _
              (outdated current here same (ground arith)))
        | inr new ↦ elim (Bool-cases (order.order_update_id == current.order_update_id)) [
          | inl again ↦
              simp (new, again)
                (discarded current _ ok here same
                  (eq_of_== order.order_update_id current.order_update_id again) refl refl)
          | inr other ↦
              let update : IsUpdateOf order current c = record {
                here = here;
                same = same;
                later = ground arith;
              } in
              elim (Bool-cases (has_active_order c)) [
                | inl h ↦
                    simp (new, other, h) (stitch-Handles env order c ok v h (inr (current, update)))
                | inr h ↦ simp (new, other, h) (update-Handles env order c ok current h update)
              ]
        ]
      ]

  pub executable_with :
      (o : Option Order)
      → c.current_order ≡ o
      → process_executable_order env order c ≡ elim o [
        | none ↦ process_other_order env order c
        | some current ↦
            if order.order_id == current.order_id
            then process_same_order env order current c
            else process_other_order env order c
      ]
  unfolding process_executable_order
  executable_with o e =
      ap
        (λ k. elim k [
          | none ↦ process_other_order env order c
          | some current ↦
              if order.order_id == current.order_id
              then process_same_order env order current c
              else process_other_order env order c
        ])
        e

  pub executable-Handles : IsValid c → Handles env order c (process_executable_order env order c)
  executable-Handles v = elim (Option-cases c.current_order) [
    | inl idle ↦ simp (executable_with none idle) (other-Handles v (λ current e. absurd (cc)))
    | inr (current, here) ↦ elim (Bool-cases (order.order_id == current.order_id)) [
      | inl same ↦
          simp (executable_with (some current) here, same)
            (same-Handles current v here (eq_of_== order.order_id current.order_id same))
      | inr other ↦
          simp (executable_with (some current) here, other)
            (other-Handles v (λ now e.
              let same : current ≡ now = cc in
              rw⁻¹ same (ne_of_== order.order_id current.order_id other)))
    ]
  ]
