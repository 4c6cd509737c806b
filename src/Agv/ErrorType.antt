-- ===== src/Agv/ErrorType.antt =====
-- `ErrorType` of src/common/client-types.ts.
use vda_5050_lib_js.Common.{String}

abbrev pub order : String
order = "orderError"

abbrev pub order_update : String
order_update = "orderUpdateError"

abbrev pub order_no_route : String
order_no_route = "noRouteError"

abbrev pub order_validation : String
order_validation = "validationError"

abbrev pub order_action : String
order_action = "orderActionError"

abbrev pub instant_action : String
instant_action = "instantActionError"

abbrev pub instant_action_validation : String
instant_action_validation = "validationError"

abbrev pub instant_action_no_order_to_cancel : String
instant_action_no_order_to_cancel = "noOrderToCancel"
