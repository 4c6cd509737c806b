-- ===== src/Agv/InstantActions/Ends.antt =====
-- Inbound instant actions are processed to an end.
use vda_5050_lib_js.Common.{
  Bool, List, Option, Option-cases, any, false, inl, inr, is_some, last?, true, ℕ, ◌++◌, ◌≢◌,
}
use vda_5050_lib_js.Vda.{Action, Order, is_hard}
use vda_5050_lib_js.Agv.Controller.{Adapter, Controller, Outcome, done, out_of_fuel, thrown}
use vda_5050_lib_js.Agv.Status.Keeps.{Keeps}
use vda_5050_lib_js.Agv.Status.Fuel.{fueled_chunk-Keeps}
use vda_5050_lib_js.Agv.InstantActions.{
  Filtered, InstantActionsMessage, conforming, filter_executable, kept, malformed, message_actions,
  process_instant_actions, start_accepted, start_filtered, threw,
}

Keeps-ends : (n : ℕ) (r : Option Order) (o : Outcome) → Keeps n r o → o ≢ out_of_fuel
Keeps-ends n r (done c) h = cc
Keeps-ends n r (thrown c) h = cc
Keeps-ends n r out_of_fuel h = absurd h

start_accepted-ends :
    (env : Adapter) (after : Option Action) (pending : Bool) (accepted : List Action)
    (c : Controller)
    → start_accepted env after pending accepted c ≢ out_of_fuel
unfolding start_accepted
start_accepted-ends env after true accepted c = cc
start_accepted-ends env after false accepted c = Keeps-ends _ _ _ (
    fueled_chunk-Keeps env after (is_some after)
      (record c { current_instant_actions = c.current_instant_actions ++ accepted }))

start_filtered-ends :
    (env : Adapter) (before : Controller) (r : Filtered) → start_filtered env before r ≢ out_of_fuel
start_filtered-ends env before (threw c) = cc
start_filtered-ends env before (kept accepted c) =
    start_accepted-ends env (last? before.current_instant_actions)
      (any (λ a. is_hard a.blocking_type) before.current_instant_actions) accepted c

-- Whatever message of instant actions comes in, and whatever is pending, `_processInstantActions`
-- returns or throws: the inner calls do not run on.
pub process_instant_actions-ends :
    (env : Adapter) (message : InstantActionsMessage) (c : Controller)
    → process_instant_actions env message c ≢ out_of_fuel
unfolding process_instant_actions
process_instant_actions-ends env (malformed header_id message) c = cc
process_instant_actions-ends env (conforming actions instant_actions) c =
    elim (Option-cases (message_actions env actions instant_actions)) [
      | inl e ↦ simp e (λ h. cc h)
      | inr (received, e) ↦ simp e (start_filtered-ends env c (filter_executable env received c))
    ]
