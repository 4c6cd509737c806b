-- ===== src/Master/Consistent/Instants.antt =====
-- Instant actions change nothing that the invariant reads, and their dispatch comes to an end.
use vda_5050_lib_js.Mqtt.AgvIdMap
use vda_5050_lib_js.Common.Map
use vda_5050_lib_js.Common.{
  Bool-cases, List, Option, Option-cases, String, [], eq_Bool, eq_Option, eq_String, eq_ℕ, filter,
  inl, inr, none, refl, some, true, ℕ, ◌∷◌, ◌≡◌,
}
use vda_5050_lib_js.Vda.{Action, ActionState, AgvId, Error, State, eq_AgvId, is_ended}
use vda_5050_lib_js.Common.Map.{Map}
use vda_5050_lib_js.Mqtt.AgvIdMap.{AgvIdMap, delete, entries, get}
use vda_5050_lib_js.Master.Controller.{
  Environment, Event, InstantActionStateCache, InstantActions, MasterController, Outcome, done,
  emit, instant_action_error, out_of_fuel, publish_instant_actions, thrown, ◌>>=◌,
}
use vda_5050_lib_js.Master.Queries.{get_action_error, state_of}
use vda_5050_lib_js.Master.Orders.{same_status}
use vda_5050_lib_js.Master.Instants.{
  InstantActionCaches, caches_of, dispatch_instant_action, dispatch_instant_action_error,
  dispatch_instant_action_state, dispatch_instant_actions, get_instant_actions_validation_error,
  initiate_instant_actions, initiated_actions, initiation_failed, instant_actions_published,
  is_validation_error, last_reported, next_ref, put_caches, put_instant_actions, put_instant_cache,
  put_or_delete, remove_instant_action_state_cache, renew_errors, renewed,
  update_instant_actions_validation_error,
}
use vda_5050_lib_js.Master.Dispatch.{dispatch_pending_actions}
use vda_5050_lib_js.Master.Consistent.{
  Frame, Frame-refl, Frame-trans, Leaves, Leaves-bind, completes, emit-Frame,
}

-- Only the fields of the instant actions may differ, and the events of none are completions.
same-Frame :
    (c : MasterController) (m : AgvIdMap InstantActionCaches) (ref : Option ℕ)
    (errors : List (ℕ × Error))
    → Frame c (record c {
      current_instant_actions = m;
      current_instant_actions_ref = ref;
      validation_errors = errors;
    })
same-Frame c m ref errors = record {
  orders = refl;
  next = refl;
  heard = λ k. refl;
  kept = λ k. (refl, refl, refl, refl);
}

abbrev pub Framed : MasterController → Outcome → Type 0
Framed c m = Leaves (Frame c) m

remove-Framed :
    (cache : InstantActionStateCache) (c : MasterController)
    → Framed c (remove_instant_action_state_cache cache c)
unfolding remove_instant_action_state_cache
remove-Framed cache c = elim (Option-cases (AgvIdMap.get cache.agv_id c.current_instant_actions)) [
  | inl e ↦ rw (e, remove_instant_action_state_cache) (Frame-refl c)
  | inr (caches, e) ↦
      rw (e, remove_instant_action_state_cache)
        (same-Frame c
          (put_or_delete cache.agv_id (Map.delete cache.action.action_id caches)
            c.current_instant_actions)
          c.current_instant_actions_ref c.validation_errors)
]

-- An event after a call that is framed.
then_emit :
    (c : MasterController) (m : Outcome) (e : Event)
    → ((k : ℕ) → completes k e ≡ 0)
    → Framed c m
    → Framed c (m >>= λ d. done (emit e d))
then_emit c m e h f =
    Leaves-bind (Frame c) m _ f λ d g. Frame-trans c d (emit e d) g (emit-Frame e d h)

dispatch_state-Framed :
    (s : ActionState) (cache : InstantActionStateCache) (state : State) (c : MasterController)
    → Framed c (dispatch_instant_action_state s cache state c)
unfolding dispatch_instant_action_state
dispatch_state-Framed s cache state c =
    elim (Bool-cases (same_status cache.last_action_state s.action_status)) [
      | inl same ↦ rw same (Frame-refl c)
      | inr new ↦ rw new (elim (Bool-cases (is_ended s.action_status)) [
        | inl e ↦ rw e (
            then_emit c (remove_instant_action_state_cache cache c) _ (λ k. refl)
              (remove-Framed cache c))
        | inr e ↦ rw e (
            let kept = put_instant_cache (last_reported s cache) c in
            Frame-trans c kept _
              (same-Frame c kept.current_instant_actions c.current_instant_actions_ref
                c.validation_errors)
              (emit-Frame _ kept (λ k. refl)))
      ])
    ]

dispatch_error-Framed :
    (e : Error) (cache : InstantActionStateCache) (state : State) (c : MasterController)
    → Framed c (dispatch_instant_action_error e cache state c)
unfolding dispatch_instant_action_error
dispatch_error-Framed e cache state c =
    then_emit c (remove_instant_action_state_cache cache c)
      (instant_action_error cache.event_handler e cache.action cache.agv_id state) (λ k. refl)
      (remove-Framed cache c)

dispatch_one-Framed :
    (state : State) (id : String) (cache : InstantActionStateCache) (c : MasterController)
    → Framed c (dispatch_instant_action state id cache c)
unfolding dispatch_instant_action
dispatch_one-Framed state id cache c = elim (Option-cases (state_of id state.action_states)) [
  | inr (s, e) ↦ rw (e, dispatch_instant_action) (dispatch_state-Framed s cache state c)
  | inl e ↦
      rw (e, dispatch_instant_action)
        (elim (Option-cases (get_action_error state.errors id true)) [
          | inr (f, g) ↦ rw g (dispatch_error-Framed f cache state c)
          | inl g ↦
              rw g
                (elim (Option-cases (
                  get_instant_actions_validation_error cache.instant_actions_ref
                    c.validation_errors)) [
                      | inr (f, i) ↦ rw i (dispatch_error-Framed f cache state c)
                      | inl i ↦ rw i (Frame-refl c)
                    ])
        ])
]

dispatch_all-Framed :
    (state : State) (entries : InstantActionCaches) (b c : MasterController)
    → Frame b c
    → Framed b (dispatch_instant_actions state entries c)
unfolding dispatch_instant_actions
dispatch_all-Framed state [] b c f = f
dispatch_all-Framed state ((id, cache) ∷ entries) b c f =
    Leaves-bind (Frame b) (dispatch_instant_action state id cache c) _
      (framed_after (dispatch_instant_action state id cache c)
        (dispatch_one-Framed state id cache c))
      (λ d g. dispatch_all-Framed state entries b d g)
  where
    framed_after : (m : Outcome) → Framed c m → Framed b m
    framed_after (done d) g = Frame-trans b c d f g
    framed_after (thrown d) g = Frame-trans b c d f g
    framed_after out_of_fuel g = g

renew-Frame :
    (ref : Option ℕ) (errors : List Error) (c : MasterController)
    → Frame c (renew_errors ref errors c)
renew-Frame none errors c = Frame-refl c
renew-Frame (some ref) errors c =
    same-Frame c c.current_instant_actions c.current_instant_actions_ref
      (renewed ref (filter is_validation_error errors) c.validation_errors)

update-Frame :
    (errors : List Error) (c : MasterController)
    → Frame c (update_instant_actions_validation_error errors c)
unfolding update_instant_actions_validation_error
update-Frame errors c = renew-Frame c.current_instant_actions_ref errors c

pub dispatch_pending-Framed :
    (a : AgvId) (state : State) (c : MasterController)
    → Framed c (dispatch_pending_actions a state c)
dispatch_pending-Framed a state c =
    let updated = update_instant_actions_validation_error state.errors c in
    dispatch_all-Framed state (caches_of a updated) c updated (update-Frame state.errors c)

pub initiate-Framed :
    (env : Environment) (a : AgvId) (message : InstantActions) (handler : ℕ) (c : MasterController)
    → Framed c (initiate_instant_actions env a message handler c)
unfolding initiate_instant_actions
initiate-Framed env a message handler c = elim (Option-cases (initiated_actions env message)) [
  | inl e ↦
      rw (e, initiate_instant_actions)
        (same-Frame c (put_caches a (caches_of a c) c).current_instant_actions
          c.current_instant_actions_ref c.validation_errors)
  | inr (actions, e) ↦
      rw (e, initiate_instant_actions)
        (let put =
            put_caches a (put_instant_actions a handler (next_ref c) actions (caches_of a c)) c in
          Frame-trans c put (emit (publish_instant_actions a message) put)
            (same-Frame c put.current_instant_actions c.current_instant_actions_ref
              c.validation_errors)
            (emit-Frame (publish_instant_actions a message) put (λ k. refl)))
]

pub published-Frame : (ref : ℕ) (c : MasterController) → Frame c (instant_actions_published ref c)
unfolding instant_actions_published
published-Frame ref c = same-Frame c c.current_instant_actions (some ref) c.validation_errors

pub failed-Frame :
    (a : AgvId) (actions : List Action) (c : MasterController)
    → Frame c (initiation_failed a actions c)
unfolding initiation_failed
failed-Frame a actions c =
    same-Frame c (initiation_failed a actions c).current_instant_actions
      c.current_instant_actions_ref c.validation_errors
