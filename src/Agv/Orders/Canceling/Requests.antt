-- ===== src/Agv/Orders/Canceling/Requests.antt =====
-- What the adapter is asked when an order is canceled: `_cancelOrder` and `_onOrderActionsCanceled`
-- of src/controller/agv-controller.ts.
use vda_5050_lib_js.Common.{List, [], ap, refl, some, ◌∙◌, ◌∷◌, ◌≡◌}
use vda_5050_lib_js.Vda.{ActionState, Order}
use vda_5050_lib_js.Agv.Orders.Canceling.Asked.{IsAsked, cancel_context-IsAsked}
use vda_5050_lib_js.Agv.Controller.{
  Controller, Effect, cancel_action, done, emit, stop_traverse, ◌>>=◌,
}
use vda_5050_lib_js.Agv.Status.Cancel.{
  cancel_context, cancel_each, cancel_or_stop, on_order_actions_canceled,
}
use vda_5050_lib_js.Agv.Traversal.{or_throw}

-- The cancellations that are asked of the adapter, newest first, before the given effects.
abbrev cancellations : Order → List ActionState → List Effect → List Effect
cancellations order [] effects = effects
cancellations order (s ∷ states) effects =
    cancellations order states (cancel_action (cancel_context order s) ∷ effects)

-- With nothing to cancel, the vehicle is stopped.
abbrev pub cancel_effects : Order → List ActionState → List Effect → List Effect
cancel_effects order [] effects = stop_traverse ∷ effects
cancel_effects order (s ∷ states) effects = cancellations order (s ∷ states) effects

cancel_each_lem :
    (order : Order) (states : List ActionState) (c : Controller)
    → c.current_order ≡ some order
    → cancel_each states c ≡ done (record c { effects = cancellations order states c.effects })
unfolding cancel_each
cancel_each_lem order [] c h = refl
cancel_each_lem order (s ∷ states) c h =
    let asked = emit (cancel_action (cancel_context order s)) c in
    ap
      (λ o.
        or_throw c o (λ k. done (emit (cancel_action (cancel_context k s)) c))
        >>= cancel_each states)
      h
    ∙ cancel_each_lem order states asked h

pub cancel_or_stop_lem :
    (order : Order) (states : List ActionState) (c : Controller)
    → c.current_order ≡ some order
    → cancel_or_stop states c ≡ done (record c { effects = cancel_effects order states c.effects })
unfolding cancel_or_stop on_order_actions_canceled
cancel_or_stop_lem order [] c h = refl
cancel_or_stop_lem order (s ∷ states) c h = cancel_each_lem order (s ∷ states) c h

-- What the adapter is asked for these states, newest first, before the given effects.
abbrev pub AreAsked : Order → List ActionState → List Effect → List Effect → Type 0
AreAsked order [] effects base = effects ≡ base
AreAsked order (s ∷ ss) effects base =
    (e : Effect) × IsAsked order s e × AreAsked order ss effects (e ∷ base)

-- Without a state to cancel, the vehicle is to stop.
abbrev pub AreCanceled : Order → List ActionState → List Effect → List Effect → Type 0
AreCanceled order [] effects base = effects ≡ stop_traverse ∷ base
AreCanceled order (s ∷ ss) effects base = AreAsked order (s ∷ ss) effects base

cancellations-AreAsked :
    (order : Order) (ss : List ActionState) (base : List Effect)
    → AreAsked order ss (cancellations order ss base) base
cancellations-AreAsked order [] base = refl
cancellations-AreAsked order (s ∷ ss) base = (
  cancel_action (cancel_context order s),
  cancel_context-IsAsked order s,
  cancellations-AreAsked order ss (cancel_action (cancel_context order s) ∷ base),
)

pub cancel_effects-AreCanceled :
    (order : Order) (ss : List ActionState) (base : List Effect)
    → AreCanceled order ss (cancel_effects order ss base) base
cancel_effects-AreCanceled order [] base = refl
cancel_effects-AreCanceled order (s ∷ ss) base = cancellations-AreAsked order (s ∷ ss) base
