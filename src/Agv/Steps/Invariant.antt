-- ===== src/Agv/Steps/Invariant.antt =====
-- The current order stays well formed through every step.
use Prim.Native.String
use vda_5050_lib_js.Agv.ErrorType
use vda_5050_lib_js.Common.{[], inl, inr, none, refl, sym, ◌∙◌, ◌≡◌}
use vda_5050_lib_js.Vda.{Order}
use vda_5050_lib_js.Agv.Controller.{Adapter, Controller, Outcome, done}
use vda_5050_lib_js.Agv.Updates.{update_state}
use vda_5050_lib_js.Agv.Orders.{OrderMessage, conforming, malformed, process_order}
use vda_5050_lib_js.Agv.Steps.{
  Leaves, Reachable, Step, action_status_changed, edge_traversed, errors_updated, factsheet_sent,
  factsheet_updated, instant_actions_received, next_node_approached, order_received, started,
  state_sent, state_updated, stepped, traverse_stopped,
}
use vda_5050_lib_js.Agv.Orders.Handled.{Handled, IsValid}
use vda_5050_lib_js.Agv.Orders.Total.{Handled-IsValid, process_order-Handled}
use vda_5050_lib_js.Agv.Steps.Same.{
  Same, Same-Leaves, context_update-Same, driving-Same, edge_traversed-Same, factsheet-Same,
  state_published-order, stopped-Same, update_errors-Same, update_factsheet-order,
  update_partial_state-order,
}
use vda_5050_lib_js.Agv.Steps.Instants.{instant_actions-Same}
use vda_5050_lib_js.Agv.Orders.Reject.{reject_order}
use vda_5050_lib_js.Agv.Faults.{create_order_error}

Same-IsValid :
    (c : Controller) (o : Outcome) (c' : Controller)
    → Same c.current_order o
    → Leaves o c'
    → IsValid c
    → IsValid c'
Same-IsValid c o c' s l v current e = v current (sym (Same-Leaves c.current_order o c' s l) ∙ e)

Leaves-done : (o : Outcome) (c c' : Controller) → o ≡ done c → Leaves o c' → c ≡ c'
Leaves-done o c c' e (inl l) = cc
Leaves-done o c c' e (inr l) = absurd (cc)

order-IsValid :
    (env : Adapter) (message : OrderMessage) (c c' : Controller)
    → Leaves (process_order env message c) c'
    → IsValid c
    → IsValid c'
unfolding process_order reject_order update_state
order-IsValid env (malformed refs message) c c' l v = λ current e. v current (
    sym (
      Same-Leaves c.current_order
        (done (
          reject_order
            (create_order_error refs ErrorType.order_validation
              (String.◌++◌ "invalid order: " message) [])
            c))
        c' refl l)
    ∙ e)
order-IsValid env (conforming order) c c' l v =
    let (k, returned, handled) = process_order-Handled env order c v in
    let same : k ≡ c' = Leaves-done (process_order env (conforming order) c) k c' returned l in
    Handled-IsValid env order c c' (rw⁻¹ same handled) v

-- Every step of the controller keeps the current order well formed.
Step-IsValid : (env : Adapter) (c c' : Controller) → Step env c c' → IsValid c → IsValid c'
Step-IsValid env c c' (order_received message _ l) v = order-IsValid env message c c' l v
Step-IsValid env c c' (instant_actions_received message _ l) v =
    Same-IsValid c _ c' (instant_actions-Same env message c) l v
Step-IsValid env c c' (action_status_changed context change _ l) v =
    Same-IsValid c _ c' (context_update-Same env context change c) l v
Step-IsValid env c c' (edge_traversed context _ l) v =
    Same-IsValid c _ c' (edge_traversed-Same context c) l v
Step-IsValid env c c' (next_node_approached node _ l) v =
    Same-IsValid c _ c' (driving-Same node c) l v
Step-IsValid env c c' (traverse_stopped _ l) v = Same-IsValid c _ c' (stopped-Same env c) l v
Step-IsValid env c c' (factsheet_sent context _ l) v =
    Same-IsValid c _ c' (factsheet-Same env context c) l v
Step-IsValid env c c' state_sent v = λ current e. v current (sym (state_published-order env c) ∙ e)
Step-IsValid env c c' (state_updated p report) v =
    λ current e. v current (sym (update_partial_state-order p report c) ∙ e)
Step-IsValid env c c' (errors_updated error mode report _ l) v =
    Same-IsValid c _ c' (update_errors-Same error mode report c) l v
Step-IsValid env c c' (factsheet_updated factsheet) v =
    λ current e. v current (sym (update_factsheet-order factsheet c) ∙ e)

-- Started without an order, a controller has a well-formed current order, if any, in every state
-- that it can get into.
pub Reachable-IsValid :
    (env : Adapter) (start c : Controller)
    → start.current_order ≡ none
    → Reachable env start c
    → IsValid c
Reachable-IsValid env start c e started = λ current h. absurd (cc)
Reachable-IsValid env start c e (stepped b _ r s) =
    Step-IsValid env b c s (Reachable-IsValid env start b e r)

-- Started without an order, a controller handles each conforming order in every state that it can
-- get into: `_processOrder` returns, and has rejected, discarded, replaced or stitched it.
pub Reachable-Handled :
    (env : Adapter) (start c : Controller) (order : Order)
    → start.current_order ≡ none
    → Reachable env start c
    → (c' : Controller) × (process_order env (conforming order) c ≡ done c')
      × Handled env order c c'
Reachable-Handled env start c order e r =
    process_order-Handled env order c (Reachable-IsValid env start c e r)
