-- ===== src/Agv/Faults.antt =====
-- The errors that the controller reports: `_createOrderError`, `_createActionError` and
-- `_createInstantActionsValidationError` in src/controller/agv-controller.ts, and `ErrorType` in
-- src/common/client-types.ts. The last argument of each is the identity of the new object.
use Prim.Native.String
use vda_5050_lib_js.Agv.ErrorType
use vda_5050_lib_js.Common.{
  Bool, List, Option, String, [], eq_Option, eq_String, eq_ℕ, filter, find?, if◌then◌else◌, none,
  not, some, ℕ, ◌++◌, ◌==◌, ◌∷◌,
}
use vda_5050_lib_js.Vda.{Error, ErrorReference, Order, warning}
use vda_5050_lib_js.Agv.Controller.{ActionContext, ActionScope, instant_scope}
use vda_5050_lib_js.Common.Decimal.{to_string}

abbrev pub ref_key_error_description_detail : String
ref_key_error_description_detail = "errorDescriptionDetail"

abbrev pub ref : String → String → ErrorReference
ref key value = record { reference_key = key; reference_value = value }

-- What can be read off an inbound order for its error: nothing, if it is no object.
pub record OrderRefs : Type 0 where
  pub header_id : Option String
  pub order_id : Option String
  pub order_update_id : Option String

unfoldable pub refs_of : Order → OrderRefs
refs_of order = record {
  header_id = some (to_string order.header.header_id);
  order_id = some order.order_id;
  order_update_id = some (to_string order.order_update_id);
}

abbrev is_detail : ErrorReference → Bool
is_detail r = r.reference_key == ref_key_error_description_detail

abbrev described : String → Option ErrorReference → String
described text none = text
described text (some r) =
    if r.reference_value == "" then text else String.◌++◌ text (String.◌++◌ ": " r.reference_value)

abbrev ref_if_given : String → Option String → List ErrorReference
ref_if_given key none = []
ref_if_given key (some value) = ref key value ∷ []

abbrev pub warn : String → String → List ErrorReference → ℕ → Error
warn type text refs i = record {
  identity = i;
  error_description = some text;
  error_hint = none;
  error_level = warning;
  error_references = some refs;
  error_type = type;
}

unfoldable pub create_order_error : OrderRefs → String → String → List ErrorReference → ℕ → Error
create_order_error order type text refs = warn type (described text (find? is_detail refs)) (
    ref "topic" "order"
    ∷ (ref_if_given "headerId" order.header_id
        ++ (ref_if_given "orderId" order.order_id
            ++ (ref_if_given "orderUpdateId" order.order_update_id
                ++ filter (λ r. not (is_detail r)) refs))))

abbrev topic_of : ActionScope → String
topic_of instant_scope = "instantActions"
topic_of _ = "order"

unfoldable pub create_action_error :
    ActionContext → String → String → List ErrorReference → ℕ → Error
create_action_error context type text refs = warn type (described text (find? is_detail refs)) (
    ref "topic" (topic_of context.scope)
    ∷ ref "actionId" context.action.action_id
    ∷ ref "actionType" context.action.action_type
    ∷ filter (λ r. not (is_detail r)) refs)

unfoldable pub create_instant_actions_validation_error : Option String → String → ℕ → Error
create_instant_actions_validation_error header_id text =
    warn ErrorType.instant_action_validation text
      (ref "topic" "instantActions" ∷ ref_if_given "headerId" header_id)
