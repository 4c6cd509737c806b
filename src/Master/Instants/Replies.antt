-- ===== src/Master/Instants/Replies.antt =====
-- What an awaited instant action is answered with, on each branch of
-- `_dispatchInstantActionState` and `_dispatchInstantActionError` of src/controller/
-- master-controller.ts.
use vda_5050_lib_js.Common.{Bool, Option, String, ap, if◌then◌else◌, none, refl, some, true, ◌≡◌}
use vda_5050_lib_js.Vda.{ActionState, AgvId, Error, State, is_ended}
use vda_5050_lib_js.Master.Controller.{
  InstantActionStateCache, MasterController, Outcome, done, emit, instant_action_error, ◌>>=◌,
}
use vda_5050_lib_js.Master.Queries.{get_action_error, state_of}
use vda_5050_lib_js.Master.Orders.{same_status}
use vda_5050_lib_js.Master.Instants.{
  InstantActionCaches, dispatch_instant_action, dispatch_instant_action_error,
  dispatch_instant_action_state, get_instant_actions_validation_error, last_reported,
  put_instant_cache, remove_instant_action_state_cache,
}
use vda_5050_lib_js.Master.Instants.Awaited.{IsPending, removes, told_of_instant, without}

abbrev first_of : Option Error → Option Error → Option Error
first_of (some e) other = some e
first_of none other = other

-- An error of the vehicle that names the action, or else the one with which the vehicle has refused
-- the whole message of the action.
abbrev pub error_for : String → InstantActionStateCache → State → MasterController → Option Error
error_for id cache state c =
    first_of (get_action_error state.errors id true)
      (get_instant_actions_validation_error cache.instant_actions_ref c.validation_errors)

module _ (a : AgvId) (id : String) (cache : InstantActionStateCache) (caches : InstantActionCaches)
    (c : MasterController) (p : IsPending a id cache caches c) (state : State) where
  abbrev pub reply : ActionState → Bool → Bool → Outcome
  reply s same over =
      if same
      then done c
      else (if over
          then remove_instant_action_state_cache cache c
          else done (put_instant_cache (last_reported s cache) c))
        >>= λ kept. done (emit (told_of_instant state cache s) kept)

  pub state_lem :
      (s : ActionState)
      → state_of id state.action_states ≡ some s
      → dispatch_instant_action state id cache c
        ≡ reply s (same_status cache.last_action_state s.action_status) (is_ended s.action_status)
  unfolding dispatch_instant_action dispatch_instant_action_state
  state_lem s e = rw (e, dispatch_instant_action) refl

  -- Without a status, the first error that there is for the action is dispatched.
  abbrev pub dispatched : Option Error → Outcome
  dispatched none = done c
  dispatched (some e) = dispatch_instant_action_error e cache state c

  pub error_lem :
      state_of id state.action_states ≡ none
      → dispatch_instant_action state id cache c ≡ dispatched (error_for id cache state c)
  unfolding dispatch_instant_action
  error_lem unseen =
      rw (unseen, dispatch_instant_action)
        (joined (get_action_error state.errors id true)
          (get_instant_actions_validation_error cache.instant_actions_ref c.validation_errors))
    where
      joined :
          (o v : Option Error)
          → (elim o [
            | some e ↦ dispatch_instant_action_error e cache state c
            | none ↦ elim v [
              | some e ↦ dispatch_instant_action_error e cache state c
              | none ↦ done c
            ]
          ])
            ≡ dispatched (first_of o v)
      joined (some e) v = refl
      joined none (some e) = refl
      joined none none = refl

  pub error_done :
      (e : Error)
      → dispatch_instant_action_error e cache state c
        ≡ done (
            emit
              (instant_action_error cache.event_handler e cache.action cache.agv_id state)
              (without a id cache caches c p))
  unfolding dispatch_instant_action_error
  error_done e =
      ap
        (λ o. o >>= λ kept.
          done (
            emit (instant_action_error cache.event_handler e cache.action cache.agv_id state) kept))
        (removes a id cache caches c p)
