-- ===== src/Agv/Orders/Total.antt =====
-- `_processOrder` handles every order that conforms to its schema, and keeps the current order well
-- formed.
use vda_5050_lib_js.Common.{Option-cases, inl, inr, refl, sym, ◌∙◌, ◌≡◌}
use vda_5050_lib_js.Vda.{Order}
use vda_5050_lib_js.Agv.Controller.{Adapter, Controller, Outcome, done, out_of_fuel, thrown}
use vda_5050_lib_js.Agv.Faults.{refs_of}
use vda_5050_lib_js.Agv.Orders.{conforming, order_refusal, process_order}
use vda_5050_lib_js.Agv.Orders.Accept.{stitched_order}
use vda_5050_lib_js.Agv.Orders.Refused.{order_error-IsRejected, order_refusal_iff}
use vda_5050_lib_js.Agv.Orders.Stitched.{stitched_order-IsWellFormed}
use vda_5050_lib_js.Agv.Orders.Meeting.{stitching-answers}
use vda_5050_lib_js.Agv.Orders.Handled.{
  Handled, Handles, IsValid, begun, declined, discarded, refused, stitched, unjoined, updated,
}
use vda_5050_lib_js.Agv.Orders.Handled.Branches.{executable-Handles}

handled_to_an_end :
    (env : Adapter) (order : Order) (c : Controller) (o : Outcome)
    → Handles env order c o
    → (c' : Controller) × (o ≡ done c') × Handled env order c c'
handled_to_an_end env order c (done c') h = (c', refl, h)
handled_to_an_end env order c (thrown c') h = absurd h
handled_to_an_end env order c out_of_fuel h = absurd h

process_order-Handles :
    (env : Adapter) (order : Order) (c : Controller)
    → IsValid c
    → Handles env order c (process_order env (conforming order) c)
unfolding process_order
process_order-Handles env order c v = elim (Option-cases (order_refusal env order c)) [
  | inl fine ↦ simp fine (executable-Handles env order c ((order_refusal_iff env order c).0 fine) v)
  | inr ((type, text, refs), refusal) ↦ simp refusal (
      refused type _ (λ ok. let e = (order_refusal_iff env order c).1 ok in absurd (cc))
        (order_error-IsRejected (refs_of order) type text refs c))
]

-- While the current order is well formed, `_processOrder` returns for every order that conforms to
-- its schema, and has then done what the order calls for. It has rejected an order that is not
-- executable. Of an executable one with the id of the current order, it has rejected one with a
-- lower update id, and discarded one with the same. Of the others, while an order is active, it has
-- stitched one that starts at the end of the current order's base, and rejected the rest; while none
-- is, it has begun an order with a new id if its first node is within the deviation range, taken on
-- an update if it starts where the vehicle was last, and rejected the rest.
pub process_order-Handled :
    (env : Adapter) (order : Order) (c : Controller)
    → IsValid c
    → (c' : Controller) × (process_order env (conforming order) c ≡ done c')
      × Handled env order c c'
process_order-Handled env order c v =
    handled_to_an_end env order c (process_order env (conforming order) c)
      (process_order-Handles env order c v)

-- However an order is handled, the current order stays well formed.
pub Handled-IsValid :
    (env : Adapter) (order : Order) (c c' : Controller)
    → Handled env order c c'
    → IsValid c
    → IsValid c'
Handled-IsValid env order c c' (refused type _ _ r) v current k = v current (sym r.order ∙ k)
Handled-IsValid env order c c' (declined type _ ok d r) v current k = v current (sym r.order ∙ k)
Handled-IsValid env order c c' (unjoined _ ok h k away r) v current q = v current (sym r.order ∙ q)
Handled-IsValid env order c c' (discarded _ _ ok here i u k e) v current q = v current (sym k ∙ q)
Handled-IsValid env order c c' (begun _ ok h other near k) v current q =
    let same : current ≡ order = cc in rw same ok.formed
Handled-IsValid env order c c' (updated _ _ ok h u at k) v current q =
    let same : current ≡ order = cc in rw same ok.formed
Handled-IsValid env order c c' (stitched old _ ok h here _ meets k) v current q =
    let same : current ≡ stitched_order old order = cc in
    elim (stitching-answers order c v ok.formed) [
      | inl (e, _) ↦ rw same (stitched_order-IsWellFormed c old order here e (v old here) ok.formed)
      | inr (_, away) ↦ absurd (away old here meets)
    ]
