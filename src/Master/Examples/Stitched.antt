-- ===== src/Master/Examples/Stitched.antt =====
-- An update of the trip, stitched by the vehicle and by the master control.
use vda_5050_lib_js.Common.{[], arith, inr, none, refl, some, true, ◌∷◌, ◌≡◌}
use vda_5050_lib_js.Vda.{finished}
use vda_5050_lib_js.Master.Controller.{MasterController, OrderObject, done}
use vda_5050_lib_js.Master.Caches.{assign_order}
use vda_5050_lib_js.Master.Stitching.{stitch}
use vda_5050_lib_js.Master.Stitching.Joint.{stitching-Agrees}
use vda_5050_lib_js.Master.Stitching.Agreed.{as_order}
use vda_5050_lib_js.Agv.Controller.{Controller, done as finished}
use vda_5050_lib_js.Agv.Examples.{able, beep, extension, header, place, trip, under_way, way}
use vda_5050_lib_js.Agv.Orders.{conforming, is_order_base_stitching, order_refusal, process_order}
use vda_5050_lib_js.Common.Map
use vda_5050_lib_js.Agv.Constraints.{validate_order_constraints}
use vda_5050_lib_js.Agv.Constraints.Route.{IsWellFormed}
use vda_5050_lib_js.Agv.Orders.Refused.{order_refusal_iff}
use vda_5050_lib_js.Agv.Queries.{get_node_states, has_active_order}
use vda_5050_lib_js.Master.Examples.{agv, all_handlers, trip_object, with_trip}

-- The update that releases n3, with a beep at n2.
abbrev extension_object : OrderObject
extension_object = record trip_object {
  nodes =
      record { identity = 3; node = place "n2" 2 true (beep ∷ []) }
      ∷ record { identity = 4; node = place "n3" 4 true [] }
      ∷ [];
  edges = record { identity = 2; edge = way "e2" 3 "n2" "n3" true } ∷ [];
  order_update_id = 1;
}

abbrev extended : MasterController
extended = assign_order agv extension_object all_handlers with_trip

trip_formed : IsWellFormed trip
trip_formed = ground arith

extension_passes : order_refusal able extension under_way ≡ none
unfolding order_refusal validate_order_constraints
extension_passes = refl

is_under_way : has_active_order under_way ≡ true
unfolding has_active_order get_node_states
is_under_way = refl

extension_fits : is_order_base_stitching under_way extension ≡ some true
unfolding is_order_base_stitching
extension_fits = refl

stitching-Agrees_example :
    (v' : Controller) × (d : MasterController) × (process_order able
        (conforming (as_order header extended (extended.caches 1).combined_order))
        under_way
      ≡ finished v')
    × (stitch 1 0 extended ≡ done d)
    × (v'.current_order ≡ some (as_order header d (d.caches 1).combined_order))
unfolding assign_order Map.get
stitching-Agrees_example =
    stitching-Agrees able under_way header header 1 0 extended (omega arith) refl trip_formed
      (omega arith) ((order_refusal_iff able extension under_way).0 extension_passes) is_under_way
      extension_fits (inr (omega arith))
