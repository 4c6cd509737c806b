-- ===== src/Agv/Examples/InstantActions.antt =====
-- Tests of the handling of instant actions, and the theorems about it at concrete messages.
use vda_5050_lib_js.Common.{[], none, refl, some, true, ◌∷◌, ◌≡◌, ◌≢◌}
use vda_5050_lib_js.Vda.{Action, is_hard, no_blocking}
use vda_5050_lib_js.Agv.InstantActions.{check_instant_action, conforming, process_instant_actions}
use vda_5050_lib_js.Agv.InstantActions.Ends.{process_instant_actions-ends}
use vda_5050_lib_js.Agv.InstantActions.Skipped.{process_instant_actions-skips}
use vda_5050_lib_js.Agv.Status.Fuel.{update_action_status-Keeps}
use vda_5050_lib_js.Agv.Examples.{able, action, idle}
use vda_5050_lib_js.Agv.Controller.{Controller, out_of_fuel, publish_state, thrown}
use vda_5050_lib_js.Agv.Status.{
  active_order_id, instant_context, state_reported, update_action_status,
}
use vda_5050_lib_js.Agv.Status.Keeps.{Keeps}

abbrev ask : Action
ask = action "i1" "stateRequest" no_blocking

abbrev honk : Action
honk = action "i2" "honk" no_blocking

update_action_status-Keeps_example :
    Keeps 0 none (update_action_status able (instant_context ask none none) state_reported idle)
update_action_status-Keeps_example =
    update_action_status-Keeps able (instant_context ask none none) state_reported idle

process_instant_actions-ends_example :
    process_instant_actions able (conforming (some (ask ∷ honk ∷ [])) none) idle ≢ out_of_fuel
process_instant_actions-ends_example =
    process_instant_actions-ends able (conforming (some (ask ∷ honk ∷ [])) none) idle

honk_passes : check_instant_action able (instant_context honk none none) idle ≡ (true, idle)
unfolding check_instant_action
honk_passes = refl

process_instant_actions-skips_example :
    (c' : Controller) × (process_instant_actions able
        (conforming (some (ask ∷ honk ∷ [])) none)
        idle
      ≡ thrown c')
    × (c'.current_instant_actions ≡ honk ∷ [])
    × (c'.effects ≡ publish_state c'.current_state ∷ [])
unfolding active_order_id is_hard
process_instant_actions-skips_example =
    process_instant_actions-skips able ask honk none none idle refl refl refl refl refl refl
      honk_passes
