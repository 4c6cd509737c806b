-- ===== src/Master/Consistent/Steps.antt =====
-- The calls of a master controller in any order: what the application, the client and the vehicles
-- bring about. src/controller/master-controller.ts.
use vda_5050_lib_js.Mqtt.AgvIdMap
use vda_5050_lib_js.Common.Map
use vda_5050_lib_js.Common.{
  Bool, Bool-cases, List, [], arith, eq_Bool, eq_Option, eq_String, eq_ℕ, false, inl, inr, ltb,
  none, refl, true, ℕ, ◌≡◌, ◌≤◌, ◌⊎◌,
}
use vda_5050_lib_js.Vda.{Action, AgvId, State, eq_AgvId}
use vda_5050_lib_js.Common.Map.{Map}
use vda_5050_lib_js.Mqtt.AgvIdMap.{AgvIdMap, get}
use vda_5050_lib_js.Master.Controller.{
  Environment, InstantActions, MasterController, OrderEventHandler, OrderObject, OrderStateCache,
  Outcome, done, out_of_fuel, thrown,
}
use vda_5050_lib_js.Master.Caches.{assign_order, assignment_failed}
use vda_5050_lib_js.Master.Instants.{
  initiate_instant_actions, initiation_failed, instant_actions_published,
}
use vda_5050_lib_js.Master.Dispatch.{
  dispatch_active_order, dispatch_pending_actions, dispatch_rejections, dispatch_state,
}
use vda_5050_lib_js.Master.Consistent.{
  Frame, Frame-IsConsistent, IsConsistent, Leaves, Leaves-bind, bit, completions,
}
use vda_5050_lib_js.Master.Consistent.Removal.{remove-IsConsistent}
use vda_5050_lib_js.Master.Consistent.Assigned.{assign-IsConsistent}
use vda_5050_lib_js.Master.Consistent.Dispatched.{
  Leaves-map, dispatch_active_order-IsConsistent, dispatch_rejections-IsConsistent,
}
use vda_5050_lib_js.Master.Consistent.Instants.{
  dispatch_pending-Framed, failed-Frame, initiate-Framed, published-Frame,
}

-- What a call that returns or throws leaves.
abbrev pub LeftBy : Outcome → MasterController → Type 0
LeftBy m c = (m ≡ done c) ⊎ (m ≡ thrown c)

pub data Step (env : Environment) : MasterController → MasterController → Type 0 where
  assigns :
      (c : MasterController) (a : AgvId) (order : OrderObject) (handler : OrderEventHandler)
      → Step env c (assign_order a order handler c)
  fails_to_assign : (c : MasterController) (k : ℕ) → Step env c (assignment_failed k c)
  initiates :
      (c d : MasterController) (a : AgvId) (message : InstantActions) (handler : ℕ)
      → LeftBy (initiate_instant_actions env a message handler c) d
      → Step env c d
  has_initiated : (c : MasterController) (ref : ℕ) → Step env c (instant_actions_published ref c)
  fails_to_initiate :
      (c : MasterController) (a : AgvId) (actions : List Action)
      → Step env c (initiation_failed a actions c)
  receives :
      (c d : MasterController) (state : State) (a : AgvId)
      → LeftBy (dispatch_state env state a c) d
      → Step env c d

-- A controller before its first call; `caches` is what stands in the store.
abbrev pub new_controller : (ℕ → OrderStateCache) → MasterController
new_controller caches = record {
  current_orders = [];
  caches = caches;
  next_cache = 0;
  node_actions = [];
  current_instant_actions = [];
  current_instant_actions_ref = none;
  validation_errors = [];
  events = [];
}

pub data Reachable (env : Environment) (caches : ℕ → OrderStateCache)
    : MasterController → Type 0 where
  start : Reachable env caches (new_controller caches)
  then : (c d : MasterController) → Reachable env caches c → Step env c d → Reachable env caches d

left-Leaves :
    (P : MasterController → Type 0) (m : Outcome) (c : MasterController)
    → Leaves P m
    → LeftBy m c
    → P c
left-Leaves P (done d) c h e = elim e [
  | inl f ↦ let same : d ≡ c = cc in rw⁻¹ same h
  | inr f ↦ absurd (ground arith)
]
left-Leaves P (thrown d) c h e = elim e [
  | inl f ↦ absurd (ground arith)
  | inr f ↦ let same : d ≡ c = cc in rw⁻¹ same h
]
left-Leaves P out_of_fuel c h e = absurd h

new-IsConsistent : (caches : ℕ → OrderStateCache) → IsConsistent (new_controller caches)
unfolding Map.get AgvIdMap.get
new-IsConsistent caches = record {
  sound = ((tt, tt), λ a o e. absurd (ground arith));
  held = λ a i u k e. absurd (ground arith);
  newest = λ a k e. absurd (ground arith);
  older = λ k j h e. absurd (omega arith);
  once = λ k h. absurd (omega arith);
  unheard = λ k h. refl;
}

dispatch_state-IsConsistent :
    (env : Environment) (state : State) (a : AgvId) (c : MasterController)
    → IsConsistent c
    → Leaves IsConsistent (dispatch_state env state a c)
unfolding dispatch_state
dispatch_state-IsConsistent env state a c v =
    let rejected = dispatch_rejections a state state.errors c in
    Leaves-bind IsConsistent (dispatch_active_order env a state rejected) _
      (dispatch_active_order-IsConsistent env a state rejected
        (dispatch_rejections-IsConsistent a state state.errors c v))
      (λ d w.
        Leaves-map (Frame d) IsConsistent (dispatch_pending_actions a state d)
          (λ e f. Frame-IsConsistent d e f w) (dispatch_pending-Framed a state d))

Step-IsConsistent :
    (env : Environment) (c d : MasterController) → Step env c d → IsConsistent c → IsConsistent d
unfolding assignment_failed
Step-IsConsistent env c d (assigns _ a order handler) v = assign-IsConsistent a order handler c v
Step-IsConsistent env c d (fails_to_assign _ k) v = remove-IsConsistent c v k false
Step-IsConsistent env c d (initiates _ _ a message handler e) v =
    Frame-IsConsistent c d
      (left-Leaves (Frame c) (initiate_instant_actions env a message handler c) d
        (initiate-Framed env a message handler c) e)
      v
Step-IsConsistent env c d (has_initiated _ ref) v = Frame-IsConsistent c d (published-Frame ref c) v
Step-IsConsistent env c d (fails_to_initiate _ a actions) v =
    Frame-IsConsistent c d (failed-Frame a actions c) v
Step-IsConsistent env c d (receives _ _ state a e) v =
    left-Leaves IsConsistent (dispatch_state env state a c) d
      (dispatch_state-IsConsistent env state a c v) e

-- In every state that a master controller can get into, each cache is entered under the ids of its
-- own order and vehicle, and refers to an older cache; the cache that was assigned last to a
-- vehicle has been made.
pub Reachable-IsConsistent :
    (env : Environment) (caches : ℕ → OrderStateCache) (c : MasterController)
    → Reachable env caches c
    → IsConsistent c
Reachable-IsConsistent env caches c start = new-IsConsistent caches
Reachable-IsConsistent env caches c (then b _ r s) =
    Step-IsConsistent env b c s (Reachable-IsConsistent env caches b r)

-- In every state that a master controller can get into, the dispatch of any state from any vehicle
-- returns or throws, and leaves a consistent controller.
pub Reachable-dispatches :
    (env : Environment) (caches : ℕ → OrderStateCache) (c : MasterController) (state : State)
    (a : AgvId)
    → Reachable env caches c
    → (d : MasterController) × LeftBy (dispatch_state env state a c) d × IsConsistent d
Reachable-dispatches env caches c state a r =
    ends (dispatch_state env state a c)
      (dispatch_state-IsConsistent env state a c (Reachable-IsConsistent env caches c r))
  where
    ends :
        (m : Outcome) → Leaves IsConsistent m → (d : MasterController) × LeftBy m d × IsConsistent d
    ends (done d) h = (d, inl refl, h)
    ends (thrown d) h = (d, inr refl, h)
    ends out_of_fuel h = absurd h

-- However the calls follow one another, the handler of an assigned order is told at most once that
-- the order has been processed without an error.
pub completed_once :
    (env : Environment) (caches : ℕ → OrderStateCache) (c : MasterController) (k : ℕ)
    → Reachable env caches c
    → completions k c.events ≤ 1
completed_once env caches c k r =
    let v = Reachable-IsConsistent env caches c r in
    elim (Bool-cases (ltb k c.next_cache)) [
      | inl e ↦
          rw (v.once k (ground arith)) (bit-le (c.caches k).is_order_processed_handler_invoked)
      | inr e ↦ rw (v.unheard k (ground arith)) (omega arith)
    ]
  where
    bit-le : (b : Bool) → bit b ≤ 1
    bit-le true = omega arith
    bit-le false = omega arith
