-- ===== src/Agv/Orders/Canceling.antt =====
-- What a "cancelOrder" sets off at once.
pub mod Asked
pub mod Requests
pub mod States
use mathlib.Core.Option
use mathlib.Core.Path.{subst}
use vda_5050_lib_js.Agv.ErrorType
use vda_5050_lib_js.Common.{
  List, [], ap, arith, filter, length, none, not, refl, some, suc, ◌&&◌, ◌∙◌, ◌∷◌, ◌≡◌,
}
use vda_5050_lib_js.Vda.{ActionState, Order, is_ended, running}
use vda_5050_lib_js.Agv.Controller.{
  ActionContext, ActionStatusChangeInfo, Adapter, Controller, done, publish_state, ◌>>=◌,
}
use vda_5050_lib_js.Agv.Queries.{has_canceling_order, is_instant_action_state}
use vda_5050_lib_js.Agv.Updates.{clone_state, merge_state, publish_current_state, update_state}
use vda_5050_lib_js.Agv.Status.{enough_fuel, update_action_status, update_fueled, update_with}
use vda_5050_lib_js.Agv.Status.Apply.{apply_status, failure_errors, put_action_state}
use vda_5050_lib_js.Agv.Status.Cancel.{cancel_or_stop, cancel_order, fail_waiting}
use vda_5050_lib_js.Agv.Orders.{order_refusal}
use vda_5050_lib_js.Agv.Constraints.Route.{IsWellFormed}
use vda_5050_lib_js.Agv.Constraints.Complete.{validate_iff}
use vda_5050_lib_js.Agv.Orders.Canceling.States.{
  AreFailed, fail_waiting-AreFailed, put_action_state-replaced, replaced, running_state,
}
use vda_5050_lib_js.Agv.Orders.Canceling.Requests.{
  AreCanceled, cancel_effects, cancel_effects-AreCanceled, cancel_or_stop_lem,
}

abbrev started_change : ActionStatusChangeInfo
started_change = record {
  action_status = running;
  result_description = none;
  error_description = none;
  linked_state = none;
}

-- A change to a status that is not final is reported, and nothing follows.
running_lem :
    (env : Adapter) (context : ActionContext) (c : Controller)
    → update_action_status env context started_change c
      ≡ done (apply_status context started_change c)
unfolding update_action_status update_fueled update_with is_ended
running_lem env context c =
    let fuel : enough_fuel c ≡ suc (length c.current_instant_actions) = omega arith in
    ap (λ n. update_fueled env n context started_change c) fuel

-- The cancellation is pending, and the waiting actions of the order have failed.
abbrev marked : ActionContext → Controller → Controller
marked context c = record c {
  cancel_order_context = some context;
  current_state = record c.current_state {
    action_states = fail_waiting c c.current_state.action_states;
  };
}

-- The state once the cancellation has been reported as running.
abbrev canceling : ActionContext → Controller → Controller
canceling context c = apply_status context started_change (marked context c)

-- The actions that are still to be canceled then.
abbrev pub still_active : Controller → List ActionState
still_active c =
    filter (λ s. not (is_instant_action_state c s) && not (is_ended s.action_status))
      c.current_state.action_states

abbrev canceled : Order → ActionContext → Controller → Controller
canceled order context c =
    let started = canceling context c in
    record started { effects = cancel_effects order (still_active started) started.effects }

canceling-order :
    (context : ActionContext) (order : Order) (c : Controller)
    → c.current_order ≡ some order
    → (canceling context c).current_order ≡ some order
unfolding apply_status update_state
canceling-order context order c h = h

canceling-context :
    (context : ActionContext) (c : Controller)
    → (canceling context c).cancel_order_context ≡ some context
unfolding apply_status update_state
canceling-context context c = refl

cancel_order_lem :
    (env : Adapter) (context : ActionContext) (order : Order) (c : Controller)
    → c.current_order ≡ some order
    → cancel_order (update_action_status env) context c ≡ done (canceled order context c)
unfolding cancel_order
cancel_order_lem env context order c h =
    ap (λ o. o >>= λ started. cancel_or_stop (still_active started) started)
      (running_lem env context (marked context c))
    ∙ cancel_or_stop_lem order (still_active (canceling context c)) (canceling context c)
        (canceling-order context order c h)

refused_while_canceling :
    (env : Adapter) (c : Controller) (context : ActionContext) (order : Order)
    → c.cancel_order_context ≡ some context
    → IsWellFormed order
    → order_refusal env order c ≡ some (ErrorType.order, "active order is being canceled", [])
unfolding order_refusal has_canceling_order
refused_while_canceling env c context order h w = ground (arith, (validate_iff order).1 w)

pub record IsCanceling (order : Order) (context : ActionContext) (c d : Controller) : Type 0 where
  pub pending : d.cancel_order_context ≡ some context
  pub kept : d.current_order ≡ some order
  pub states :
      (ts : List ActionState) × AreFailed c c.current_state.action_states ts
      × (d.current_state.action_states ≡ replaced (running_state context.action) ts)
  pub asked :
      AreCanceled order (still_active d) d.effects (publish_state d.current_state ∷ c.effects)

canceling-states :
    (context : ActionContext) (c : Controller)
    → (canceling context c).current_state.action_states
      ≡ put_action_state context.action
          (running_state context.action)
          (fail_waiting c c.current_state.action_states)
unfolding apply_status update_state clone_state merge_state failure_errors
canceling-states context c = refl

canceling-effects :
    (context : ActionContext) (c : Controller)
    → (canceling context c).effects ≡ publish_state (canceling context c).current_state ∷ c.effects
unfolding apply_status update_state publish_current_state
canceling-effects context c = refl

canceled-IsCanceling :
    (order : Order) (context : ActionContext) (c : Controller)
    → c.current_order ≡ some order
    → IsCanceling order context c (canceled order context c)
unfolding is_instant_action_state
canceled-IsCanceling order context c h =
    let started = canceling context c in
    record {
      pending = canceling-context context c;
      kept = canceling-order context order c h;
      states = (
        fail_waiting c c.current_state.action_states,
        fail_waiting-AreFailed c c.current_state.action_states,
        canceling-states context c
            ∙ put_action_state-replaced context.action
                (fail_waiting c c.current_state.action_states),
      );
      asked =
          subst
            (λ base.
              AreCanceled order (still_active started)
                (cancel_effects order (still_active started) started.effects) base)
            (canceling-effects context c)
            (cancel_effects-AreCanceled order (still_active started) started.effects);
    }

-- `_cancelOrder` returns for a current order. The cancellation is pending then. The actions of the
-- order that were waiting have failed, the "cancelOrder" is running, and this state has been
-- published. After that, for each action of the order that has not ended, in order, the adapter has
-- been asked to cancel it, with the context of an action of a base node or edge with its id, if
-- there is one; if no such action is left, the vehicle has been told to stop. A well-formed order
-- that comes in next is refused because of the cancellation.
pub cancel_order-cancels :
    (env : Adapter) (context : ActionContext) (order next : Order) (c : Controller)
    → c.current_order ≡ some order
    → IsWellFormed next
    → (d : Controller) × (cancel_order (update_action_status env) context c ≡ done d)
      × IsCanceling order context c d
      × (order_refusal env next d ≡ some (ErrorType.order, "active order is being canceled", []))
cancel_order-cancels env context order next c h w = (
  canceled order context c,
  cancel_order_lem env context order c h,
  canceled-IsCanceling order context c h,
  refused_while_canceling env (canceled order context c) context next (canceling-context context c)
      w,
)
