-- ===== src/Master/Examples/Refusals.antt =====
-- The theorems about errors of a vehicle at concrete states.
use vda_5050_lib_js.Common.{[], arith, false, inl, none, refl, some, ℕ, ◌+◌, ◌∷◌, ◌≡◌}
use vda_5050_lib_js.Vda.{Error, running, warning}
use vda_5050_lib_js.Agv.Constraints.{validate_order_constraints}
use vda_5050_lib_js.Agv.Examples.{able, trip}
use vda_5050_lib_js.Agv.Examples.Orders.{charging}
use vda_5050_lib_js.Agv.Faults.{ref}
use vda_5050_lib_js.Agv.Orders.{conforming, order_refusal, process_order}
use vda_5050_lib_js.Master.Controller.{MasterController, order_processed}
use vda_5050_lib_js.Master.Caches.{
  assign_order, get_last_assigned_order_state_cache, get_order_state_cache,
}
use vda_5050_lib_js.Master.Instants.{
  get_instant_actions_validation_error, update_instant_actions_validation_error,
}
use vda_5050_lib_js.Master.Dispatch.{dispatch_rejection, dispatch_rejections}
use vda_5050_lib_js.Master.Dispatch.Rejected.{IsReported, refusal-IsReported}
use vda_5050_lib_js.Master.Dispatch.References.{AreDetails}
use vda_5050_lib_js.Master.Dispatch.Unrelated.{unrelated_error-ends_order}
use vda_5050_lib_js.Master.Instants.Confused.{new_errors-swapped, other_state-renumbers}
use vda_5050_lib_js.Master.Examples.{agv, at_n1, new, trip-IsConsistent, trip_found, with_trip}
use vda_5050_lib_js.Agv.Controller.{Controller, done}

refused_while_charging :
    order_refusal able trip charging
    ≡ some (
      "orderError",
      "order is not executable while charging",
      ref "batteryState.charging" "true" ∷ [],
    )
unfolding order_refusal validate_order_constraints
refused_while_charging = refl

charging-AreDetails : AreDetails "orderError" (ref "batteryState.charging" "true" ∷ [])
charging-AreDetails = record {
  topic = refl;
  order_id = refl;
  order_update_id = refl;
  action = inl refl;
}

refusal-IsReported_example :
    (vehicle' : Controller) × (e : Error) × (process_order able (conforming trip) charging
      ≡ done vehicle')
    × (e.error_type ≡ "orderError")
    × IsReported agv trip 0 vehicle'.current_state e with_trip
        (dispatch_rejections agv vehicle'.current_state vehicle'.current_state.errors with_trip)
refusal-IsReported_example =
    refusal-IsReported able trip charging "orderError" "order is not executable while charging"
      (ref "batteryState.charging" "true" ∷ []) agv 0 with_trip refused_while_charging
      charging-AreDetails trip-IsConsistent trip_found tt

-- A vehicle whose battery is low says so without references.
abbrev battery_low : Error
battery_low = record {
  identity = 0;
  error_description = none;
  error_hint = none;
  error_level = warning;
  error_references = none;
  error_type = "batteryLow";
}

trip_is_last : get_last_assigned_order_state_cache agv with_trip ≡ some 0
unfolding get_last_assigned_order_state_cache assign_order
trip_is_last = refl

unrelated_error-ends_order_example :
    ((dispatch_rejection agv (at_n1 running) battery_low with_trip).events
      ≡ order_processed 0 (some battery_low) false false (at_n1 running) ∷ with_trip.events)
    × (get_order_state_cache
          (with_trip.caches 0).agv_id
          (with_trip.caches 0).order.order_id
          (with_trip.caches 0).order.order_update_id
          (dispatch_rejection agv (at_n1 running) battery_low with_trip)
        ≡ none)
unrelated_error-ends_order_example =
    unrelated_error-ends_order agv (at_n1 running) battery_low 0 with_trip refl refl refl
      trip-IsConsistent trip_is_last

abbrev invalid : ℕ → Error
invalid i = record battery_low {
  identity = i;
  error_references = some (ref "topic" "instantActions" ∷ []);
  error_type = "validationError";
}

-- Two messages have been initiated, and the first one was invalid.
abbrev after_two : MasterController
after_two = record new {
  current_instant_actions_ref = some 2;
  validation_errors = (1, invalid 0) ∷ [];
}

other_state-renumbers_example :
    (get_instant_actions_validation_error 2
        (update_instant_actions_validation_error
          (invalid 0 ∷ [])
          (update_instant_actions_validation_error [] after_two)).validation_errors
      ≡ some (invalid 0))
    × (get_instant_actions_validation_error 1
          (update_instant_actions_validation_error
            (invalid 0 ∷ [])
            (update_instant_actions_validation_error [] after_two)).validation_errors
        ≡ none)
other_state-renumbers_example =
    other_state-renumbers [] (invalid 0 ∷ []) (invalid 0) 1 2 after_two refl refl refl refl
      (λ e. absurd (omega arith))

abbrev after_two_unanswered : MasterController
after_two_unanswered = record new { current_instant_actions_ref = some (1 + 1) }

new_errors-swapped_example :
    (get_instant_actions_validation_error
        (1 + 1)
        (update_instant_actions_validation_error
          (invalid 0 ∷ invalid 1 ∷ [])
          after_two_unanswered).validation_errors
      ≡ some (invalid 0))
    × (get_instant_actions_validation_error 1
          (update_instant_actions_validation_error
            (invalid 0 ∷ invalid 1 ∷ [])
            after_two_unanswered).validation_errors
        ≡ some (invalid 1))
new_errors-swapped_example =
    new_errors-swapped (invalid 0 ∷ invalid 1 ∷ []) (invalid 0) (invalid 1) 1 after_two_unanswered
      refl refl refl
