-- ===== src/Agv/Orders/Refused.antt =====
-- When `_processOrder` refuses an order, and what it leaves alone then.
use vda_5050_lib_js.Common.{
  All, List, String, [], arith, false, inl, inr, none, refl, suc, true, ℕ, ◌++◌, ◌↔◌, ◌∷◌, ◌≡◌, ◌⊎◌,
}
use vda_5050_lib_js.Vda.{
  EStop, Error, ErrorReference, OperatingMode, Order, State, automatic, executes_orders, is_stopped,
  no_e_stop, semiautomatic,
}
use vda_5050_lib_js.Agv.Controller.{ActionContext, Adapter, Controller, publish_state}
use vda_5050_lib_js.Agv.Faults.{OrderRefs, create_order_error}
use vda_5050_lib_js.Agv.Constraints.{Checked, passed, validate_order_constraints, violated}
use vda_5050_lib_js.Agv.Constraints.Route.{IsWellFormed}
use vda_5050_lib_js.Agv.Constraints.Complete.{validate_iff}
use vda_5050_lib_js.Agv.Orders.{order_refusal, state_obstacle}
use vda_5050_lib_js.Agv.Orders.Reject.{action_contexts, action_refusal, first_refused, reject_order}

-- One more error is reported, in one publication, and nothing else has changed: not the order and
-- its progress, no other field, and the adapter is not called. (A publication takes a new timestamp.)
pub record IsRejected (c : Controller) (type : String) (c' : Controller) : Type 0 where
  pub order : c'.current_order ≡ c.current_order
  pub reported :
      (e : Error) × (e.error_type ≡ type)
      × (e.identity ≡ c.next_identity)
      × (c'.current_state.errors ≡ c.current_state.errors ++ e ∷ [])
  pub published : c'.effects ≡ publish_state c'.current_state ∷ c.effects
  pub elsewhere : c' ≡ record c {
    current_state = record c.current_state { errors = c'.current_state.errors; timestamp = none };
    next_identity = suc c.next_identity;
    effects = c'.effects;
  }

pub reject_order-IsRejected :
    (make : ℕ → Error) (type : String) (c : Controller)
    → ((i : ℕ) → (make i).error_type ≡ type)
    → ((i : ℕ) → (make i).identity ≡ i)
    → IsRejected c type (reject_order make c)
unfolding reject_order
reject_order-IsRejected make type c typed numbered = record {
  order = refl;
  reported = (make c.next_identity, typed c.next_identity, numbered c.next_identity, refl);
  published = refl;
  elsewhere = refl;
}

pub order_error-IsRejected :
    (refs : OrderRefs) (type text : String) (rs : List ErrorReference) (c : Controller)
    → IsRejected c type (reject_order (create_order_error refs type text rs) c)
unfolding create_order_error
order_error-IsRejected refs type text rs c =
    reject_order-IsRejected (create_order_error refs type text rs) type c (λ i. refl) (λ i. refl)

-- The vehicle may drive: not charging, no emergency stop, no field violation, and an operating
-- mode that executes orders.
pub record CanDrive (s : State) : Type 0 where
  pub charging : s.battery_state.charging ≡ false
  pub e_stop : s.safety_state.e_stop ≡ no_e_stop
  pub field : s.safety_state.field_violation ≡ false
  pub mode : (s.operating_mode ≡ automatic) ⊎ (s.operating_mode ≡ semiautomatic)

is_stopped_iff : (e : EStop) → is_stopped e ≡ false → e ≡ no_e_stop
unfolding is_stopped
is_stopped_iff e h = ground arith

executes_orders_iff :
    (m : OperatingMode) → executes_orders m ≡ true → (m ≡ automatic) ⊎ (m ≡ semiautomatic)
unfolding executes_orders
executes_orders_iff automatic h = inl refl
executes_orders_iff semiautomatic h = inr refl
executes_orders_iff _ h = cc

state_obstacle_sound : (s : State) → state_obstacle s ≡ none → CanDrive s
unfolding state_obstacle
state_obstacle_sound s h =
    ground (arith, is_stopped_iff s.safety_state.e_stop, executes_orders_iff s.operating_mode)

state_obstacle_complete : (s : State) → CanDrive s → state_obstacle s ≡ none
unfolding state_obstacle
state_obstacle_complete s h = ground arith

-- What an order must meet to be taken on at all.
pub record IsExecutable (env : Adapter) (order : Order) (c : Controller) : Type 0 where
  pub formed : IsWellFormed order
  pub calm : c.cancel_order_context ≡ none
  pub route : env.is_route_traversable order.nodes order.edges ≡ []
  pub actions : All (λ context. env.is_action_executable context ≡ []) (action_contexts order)
  pub drives : CanDrive c.current_state

first_refused_sound :
    (env : Adapter) (contexts : List ActionContext)
    → first_refused env contexts ≡ none
    → All (λ context. env.is_action_executable context ≡ []) contexts
unfolding first_refused
first_refused_sound env [] h = tt
first_refused_sound env (k ∷ ks) h = ground (arith, first_refused_sound env ks)

first_refused_complete :
    (env : Adapter) (contexts : List ActionContext)
    → All (λ context. env.is_action_executable context ≡ []) contexts
    → first_refused env contexts ≡ none
unfolding first_refused
first_refused_complete env [] h = refl
first_refused_complete env (k ∷ ks) (e, h) = rw e (first_refused_complete env ks h)

checked_cases : (x : Checked (Unit {0})) → (x ≡ passed tt) ⊎ ((m : String) × (x ≡ violated m))
checked_cases (passed u) = inl refl
checked_cases (violated m) = inr (m, refl)

refusal_sound :
    (env : Adapter) (order : Order) (c : Controller)
    → order_refusal env order c ≡ none
    → IsExecutable env order c
unfolding order_refusal action_refusal
refusal_sound env order c h = elim (checked_cases (validate_order_constraints order)) [
  | inl formed ↦ record {
    formed = (validate_iff order).0 formed;
    calm = ground arith;
    route = ground arith;
    actions = first_refused_sound env (action_contexts order) (ground arith);
    drives = state_obstacle_sound c.current_state (ground arith);
  }
  | inr (m, bad) ↦ absurd (ground arith)
]

refusal_complete :
    (env : Adapter) (order : Order) (c : Controller)
    → IsExecutable env order c
    → order_refusal env order c ≡ none
unfolding order_refusal action_refusal
refusal_complete env order c h = ground (
  arith,
  (validate_iff order).1 h.formed,
  first_refused_complete env (action_contexts order) h.actions,
  state_obstacle_complete c.current_state h.drives,
)

-- `_processOrder` gets past its checks exactly for an executable order: a well-formed one, while
-- no order is being canceled, on a route that the adapter can traverse, all of whose actions it
-- can execute, and with a vehicle that may drive.
pub order_refusal_iff :
    (env : Adapter) (order : Order) (c : Controller)
    → (order_refusal env order c ≡ none) ↔ IsExecutable env order c
order_refusal_iff env order c = (refusal_sound env order c, refusal_complete env order c)
