-- ===== src/Agv/Status/Apply.antt =====
-- The first half of `_updateActionStatus`: the new action state and its error are reported.
use mathlib.Core.Option
use vda_5050_lib_js.Agv.ErrorType
use vda_5050_lib_js.Common.{
  List, Option, String, [], eq_Option, eq_String, eq_ℕ, find_index?, if◌then◌else◌, none, set, some,
  true, ℕ, ◌!=◌, ◌&&◌, ◌++◌, ◌+◌, ◌∷◌,
}
use vda_5050_lib_js.Vda.{Action, ActionState, Error, PartialState, is_failed}
use vda_5050_lib_js.Agv.Controller.{
  ActionContext, ActionScope, ActionStatusChangeInfo, Controller, instant_scope,
}
use vda_5050_lib_js.Agv.Queries.{has_action_id}
use vda_5050_lib_js.Agv.Updates.{clone_state, error_count, no_changes, update_state}
use vda_5050_lib_js.Agv.Faults.{create_action_error}

abbrev new_action_state : Action → ActionStatusChangeInfo → ActionState
new_action_state a change = record {
  action_description = a.action_description;
  action_id = a.action_id;
  action_status = change.action_status;
  action_type = some a.action_type;
  result_description = change.result_description;
}

-- The state of the action is replaced, or stands last.
unfoldable pub put_action_state : Action → ActionState → List ActionState → List ActionState
put_action_state a s states = elim (find_index? (has_action_id a) states) [
  | none ↦ states ++ s ∷ []
  | some i ↦ set states i s
]

abbrev error_type_of : ActionScope → String
error_type_of instant_scope = ErrorType.instant_action
error_type_of _ = ErrorType.order_action

abbrev failure_text : ActionStatusChangeInfo → Option String
failure_text change = elim change.error_description [
  | none ↦ none
  | some text ↦ if is_failed change.action_status && text != "" then some text else none
]

-- The errors to report, if there is a new one, and the next identity.
unfoldable pub failure_errors :
    ActionContext → ActionStatusChangeInfo → Controller → Option (List Error) × ℕ
unfolding is_failed create_action_error
failure_errors context change c = elim (failure_text change) [
  | none ↦ (none, c.next_identity)
  | some text ↦ (
    some (
        c.current_state.errors
        ++ create_action_error context (error_type_of context.scope) text [] c.next_identity ∷ []),
    c.next_identity + 1,
  )
]

abbrev linked : ActionStatusChangeInfo → PartialState
linked change = Option.get_or change.linked_state no_changes

abbrev first_given {ℓ} : {A : Type ℓ} → Option A → Option A → Option A
first_given none b = b
first_given (some a) b = some a

-- The linked state, a copy, covers the action states and the errors.
unfoldable pub apply_status : ActionContext → ActionStatusChangeInfo → Controller → Controller
unfolding put_action_state failure_errors clone_state update_state
apply_status context change c =
    let (errors, identity) = failure_errors context change c in
    let copy = clone_state (linked change) identity in
    let states =
      put_action_state context.action (new_action_state context.action change)
        c.current_state.action_states in
    update_state
      (record copy {
        action_states = first_given copy.action_states (some states);
        errors = first_given copy.errors errors;
      })
      true (record c { next_identity = identity + error_count copy.errors })
