-- ===== src/Agv/InstantActions.antt =====
-- Inbound instant actions: `_processInstantActions` and `_checkInstantActionExecutable` in
-- src/controller/agv-controller.ts.
use vda_5050_lib_js.Common.Map
use vda_5050_lib_js.Agv.ErrorType
pub mod Ends
pub mod Request
pub mod Skipped
use Prim.Native.String
use vda_5050_lib_js.Common.{
  Bool, List, Option, String, [], any, eq_Option, eq_String, eq_ℕ, false, if◌then◌else◌, is_some,
  last?, none, not, set, some, suc, true, ℕ, ◌++◌, ◌==◌, ◌||◌, ◌∷◌,
}
use vda_5050_lib_js.Vda.{Action, Error, ErrorReference, is_hard}
use vda_5050_lib_js.Agv.Controller.{ActionContext, Adapter, Controller, Outcome, done, thrown}
use vda_5050_lib_js.Agv.Queries.{has_active_order, has_canceling_order, is_nonempty}
use vda_5050_lib_js.Agv.Updates.{no_changes, update_state}
use vda_5050_lib_js.Agv.Traversal.{or_throw}
use vda_5050_lib_js.Agv.Faults.{
  create_action_error, create_instant_actions_validation_error, ref,
  ref_key_error_description_detail,
}
use vda_5050_lib_js.Agv.Status.{
  active_order_id, enough_fuel, instant_context, process_instant_action_chunk, update_action_status,
  update_fueled,
}

-- An inbound message, as the validators of the JSON schemas find it: they name an error for one
-- that does not conform, and its header id is read if it is an object.
pub data InstantActionsMessage : Type 0 where
  conforming : (actions instant_actions : Option (List Action)) → InstantActionsMessage
  malformed : (header_id : Option String) → (message : String) → InstantActionsMessage

abbrev detail : String → List ErrorReference
detail text = ref ref_key_error_description_detail text ∷ []

-- The error type and the references by which an instant action is refused.
unfoldable pub instant_action_refusal :
    Adapter → Controller → ActionContext → String × List ErrorReference
unfolding has_active_order has_canceling_order
instant_action_refusal env c context =
    let type = context.action.action_type in
    if type == "cancelOrder"
    then (
      ErrorType.instant_action_no_order_to_cancel,
      if not (has_active_order c)
          then detail "no active order to be canceled"
          else if has_canceling_order c
          then detail "cancel order already pending"
          else [],
    )
    else if type == "stateRequest" || type == "factsheetRequest"
    then (ErrorType.instant_action, [])
    else (ErrorType.instant_action, env.is_action_executable context)

-- The error is counted from now on, and reported.
unfoldable pub report_instant_error : (ℕ → Error) → Controller → Controller
unfolding update_state
report_instant_error make c =
    let i = c.next_identity in
    update_state (record no_changes { errors = some (c.current_state.errors ++ make i ∷ []) }) true
      (record c {
        next_identity = suc i;
        instant_actions_errored_publish_count = Map.set i 0 c.instant_actions_errored_publish_count;
      })

-- `_checkInstantActionExecutable`, once the context is there.
unfoldable pub check_instant_action : Adapter → ActionContext → Controller → Bool × Controller
unfolding instant_action_refusal report_instant_error
check_instant_action env context c =
    let (type, refs) = instant_action_refusal env c context in
    if is_nonempty refs
    then (
      false,
      report_instant_error
          (create_action_error context type "instant action is not executable" refs) c,
    )
    else (true, c)

-- What `filter` returns, or the state in which a check has thrown.
pub data Filtered : Type 0 where
  kept : List Action → Controller → Filtered
  threw : Controller → Filtered

abbrev pub cons_if : Bool → Action → Filtered → Filtered
cons_if false a r = r
cons_if true a (kept actions c) = kept (a ∷ actions) c
cons_if true a (threw c) = threw c

unfoldable pub filter_executable : Adapter → List Action → Controller → Filtered
unfolding check_instant_action active_order_id
filter_executable env [] c = kept [] c
filter_executable env (a ∷ actions) c = elim (active_order_id c) [
  | none ↦ threw c
  | some id ↦
      let checked = check_instant_action env (instant_context a none id) c in
      cons_if checked.0 a (filter_executable env actions checked.1)
]

abbrev pub message_actions :
    Adapter → Option (List Action) → Option (List Action) → Option (List Action)
message_actions env actions instant_actions =
    if env.vda_version == "1.1.0" then instant_actions else actions

unfoldable pub start_accepted : Adapter → Option Action → Bool → List Action → Controller → Outcome
unfolding process_instant_action_chunk update_action_status
start_accepted env after has_pending_hard_action accepted c =
    let pushed = record c { current_instant_actions = c.current_instant_actions ++ accepted } in
    if has_pending_hard_action
    then done pushed
    else process_instant_action_chunk env (update_fueled env (enough_fuel pushed)) after
        (is_some after) pushed

-- The list is extended by what the filter has kept, behind what was pending before.
abbrev pub start_filtered : Adapter → Controller → Filtered → Outcome
start_filtered env before (threw c) = thrown c
start_filtered env before (kept accepted c) =
    start_accepted env (last? before.current_instant_actions)
      (any (λ a. is_hard a.blocking_type) before.current_instant_actions) accepted c

unfoldable pub process_instant_actions : Adapter → InstantActionsMessage → Controller → Outcome
unfolding report_instant_error filter_executable start_accepted
process_instant_actions env (malformed header_id message) c = done (
    report_instant_error
      (create_instant_actions_validation_error header_id
        (String.◌++◌ "invalid instant actions: " message))
      c)
process_instant_actions env (conforming actions instant_actions) c =
    or_throw c (message_actions env actions instant_actions)
      λ received. start_filtered env c (filter_executable env received c)
