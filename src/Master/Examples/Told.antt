-- ===== src/Master/Examples/Told.antt =====
-- The theorems about events at concrete states.
use vda_5050_lib_js.Common.Map
use vda_5050_lib_js.Mqtt.AgvIdMap
use vda_5050_lib_js.Common.{
  [], arith, eq_Bool, eq_Option, eq_String, eq_ℕ, false, filter, none, refl, some, true, ◌↔◌, ◌∷◌,
  ◌≡◌, ◌⊎◌,
}
use vda_5050_lib_js.Vda.{automatic, eq_AgvId, finished, no_e_stop, running}
use vda_5050_lib_js.Common.Map.{Map}
use vda_5050_lib_js.Mqtt.AgvIdMap.{AgvIdMap, get}
use vda_5050_lib_js.Agv.Examples.{idle_state, lift}
use vda_5050_lib_js.Master.Controller.{EdgeStatus, InstantActionStateCache, MasterController, done}
use vda_5050_lib_js.Master.Queries.{is_order_processed, processed, processed_active, state_of}
use vda_5050_lib_js.Master.Queries.Progressed.{
  ActionsEnded, IsAtHorizon, IsDone, is_order_processed_iff,
}
use vda_5050_lib_js.Master.Caches.{assign_order}
use vda_5050_lib_js.Master.Edges.{edge_status, update_edge_state_changes}
use vda_5050_lib_js.Master.Edges.Changes.{IsTold, edge_changes-IsTold}
use vda_5050_lib_js.Master.Orders.{dispatch_action_states}
use vda_5050_lib_js.Master.Orders.Actions.{action_states-told}
use vda_5050_lib_js.Master.Instants.{dispatch_instant_action}
use vda_5050_lib_js.Master.Instants.Answered.{AnsweredBy, instant_action-IsAnswered}
use vda_5050_lib_js.Master.Examples.{agv, at_n1, blank, env, first_edge, lifting, new, with_trip}
use vda_5050_lib_js.Master.Edges.Agreement.{Agree}
use vda_5050_lib_js.Master.Orders.News.{is_news, tell}
use vda_5050_lib_js.Master.Instants.Awaited.{IsPending}
use vda_5050_lib_js.Master.Instants.Replies.{error_for}

action_states-told_example :
    ((dispatch_action_states 0 (at_n1 running) (lifting running ∷ []) with_trip).events
      ≡ tell 0
          (at_n1 running)
          (with_trip.caches 0).mapped_actions
          (filter (is_news (with_trip.caches 0)) (lifting running ∷ []))
          with_trip.events)
    × (dispatch_action_states 0
          (at_n1 running)
          (lifting running ∷ [])
          (dispatch_action_states 0 (at_n1 running) (lifting running ∷ []) with_trip)
        ≡ dispatch_action_states 0 (at_n1 running) (lifting running ∷ []) with_trip)
unfolding assign_order
action_states-told_example =
    action_states-told 0 (at_n1 running) (lifting running ∷ []) with_trip refl (tt, tt)

abbrev standing : EdgeStatus
standing = record {
  distance_since_last_node = none;
  driving = true;
  new_base_request = none;
  operating_mode = automatic;
  paused = none;
  safety_state = record { e_stop = no_e_stop; field_violation = false };
}

-- On the way to n2.
abbrev on_edge_one : MasterController
on_edge_one = record new {
  caches = λ _. record (blank 0) { last_edge_state_changes = some standing };
  next_cache = 1;
}

edge_changes-IsTold_example :
    (Agree env standing (edge_status (at_n1 running))
      × (update_edge_state_changes env 0 first_edge none none (at_n1 running) on_edge_one
          ≡ on_edge_one))
    ⊎ ((¬ Agree env standing (edge_status (at_n1 running)))
        × IsTold env 0 first_edge none none
            (at_n1 running)
            standing
            on_edge_one
            (update_edge_state_changes env 0 first_edge none none (at_n1 running) on_edge_one))
edge_changes-IsTold_example =
    edge_changes-IsTold env 0 first_edge none none (at_n1 running) standing on_edge_one refl refl
      (λ j. refl)

is_order_processed_iff_example :
    ((is_order_processed (blank 0) idle_state ≡ processed)
      ↔ (IsDone idle_state × ActionsEnded (blank 0)))
    × ((is_order_processed (blank 0) idle_state ≡ processed_active)
        ↔ ((¬ IsDone idle_state) × IsAtHorizon idle_state × ActionsEnded (blank 0)))
is_order_processed_iff_example = is_order_processed_iff (blank 0) idle_state

abbrev lift_cache : InstantActionStateCache
lift_cache = record {
  agv_id = agv;
  action = lift;
  event_handler = 3;
  instant_actions_ref = 1;
  last_action_state = some (lifting running);
}

-- A lift is awaited as an instant action.
abbrev awaiting : MasterController
awaiting = record new {
  current_instant_actions = ("acme", ("001", ("a1", lift_cache) ∷ []) ∷ []) ∷ [];
}

awaiting-IsPending : IsPending agv "a1" lift_cache (("a1", lift_cache) ∷ []) awaiting
unfolding Map.get AgvIdMap.get
awaiting-IsPending = record {
  valid = ((tt, tt), (((tt, tt), λ e. absurd (ground arith)), tt));
  distinct = (tt, tt);
  map = refl;
  entry = refl;
  agv = refl;
  action = refl;
}

instant_action-IsAnswered_example :
    (d : MasterController) × (dispatch_instant_action (at_n1 finished) "a1" lift_cache awaiting
      ≡ done d)
    × AnsweredBy agv "a1" lift_cache
        (at_n1 finished)
        awaiting
        d
        (state_of "a1" (at_n1 finished).action_states)
        (error_for "a1" lift_cache (at_n1 finished) awaiting)
instant_action-IsAnswered_example =
    instant_action-IsAnswered agv "a1" lift_cache (("a1", lift_cache) ∷ []) (at_n1 finished)
      awaiting awaiting-IsPending
