-- ===== src/Agv/InstantActions/Skipped.antt =====
-- A request for the state leaves the list of instant actions that the loop is going through.
-- The filter keeps an action that passes its check, as a request for the state does.
use vda_5050_lib_js.Common.{
  List, Option, String, [], any, ap, eq_Option, eq_String, eq_ℕ, false, if◌then◌else◌, is_some,
  last?, none, refl, some, true, ◌++◌, ◌==◌, ◌∙◌, ◌∷◌, ◌≡◌,
}
use vda_5050_lib_js.Vda.{Action, is_hard}
use vda_5050_lib_js.Agv.Updates.{update_state}
use vda_5050_lib_js.Agv.InstantActions.{
  check_instant_action, conforming, cons_if, filter_executable, instant_action_refusal, kept,
  process_instant_actions, start_accepted, start_filtered, threw,
}
use vda_5050_lib_js.Agv.Controller.{Adapter, Controller, Outcome, done, publish_state, thrown}
use vda_5050_lib_js.Agv.Status.{
  active_order_id, enough_fuel, instant_context, process_instant_action_chunk, update_fueled,
}
use vda_5050_lib_js.Agv.Status.Apply.{apply_status, failure_errors}
use vda_5050_lib_js.Agv.InstantActions.Request.{chunk_throws}

filter_keeps :
    (env : Adapter) (a : Action) (actions : List Action) (id : Option String) (c : Controller)
    → active_order_id c ≡ some id
    → check_instant_action env (instant_context a none id) c ≡ (true, c)
    → filter_executable env (a ∷ actions) c ≡ cons_if true a (filter_executable env actions c)
unfolding filter_executable
filter_keeps env a actions id c o h =
    ap
      (λ m. elim m [
        | none ↦ threw c
        | some id ↦
            let checked = check_instant_action env (instant_context a none id) c in
            cons_if checked.0 a (filter_executable env actions checked.1)
      ])
      o
    ∙ ap (λ k. cons_if k.0 a (filter_executable env actions k.1)) h

request_passes :
    (env : Adapter) (a : Action) (id : Option String) (c : Controller)
    → a.action_type ≡ "stateRequest"
    → check_instant_action env (instant_context a none id) c ≡ (true, c)
unfolding check_instant_action instant_action_refusal
request_passes env a id c t = simp (t) refl

filtered_pair :
    (env : Adapter) (a b : Action) (id : Option String) (c : Controller)
    → active_order_id c ≡ some id
    → a.action_type ≡ "stateRequest"
    → check_instant_action env (instant_context b none id) c ≡ (true, c)
    → filter_executable env (a ∷ b ∷ []) c ≡ kept (a ∷ b ∷ []) c
unfolding filter_executable
filtered_pair env a b id c o t h =
    filter_keeps env a (b ∷ []) id c o (request_passes env a id c t)
    ∙ ap (cons_if true a) (filter_keeps env b [] id c o h)

abbrev both : Action → Action → Controller → Controller
both a b c = record c { current_instant_actions = a ∷ b ∷ [] }

-- Orders do not depend on the pending instant actions.
active_order_id-both :
    (a b : Action) (c : Controller) → active_order_id (both a b c) ≡ active_order_id c
unfolding active_order_id
active_order_id-both a b c = refl

abbrev Skips : Action → Controller → Outcome → Type 0
Skips b c o =
    (c' : Controller) × (o ≡ thrown c')
    × (c'.current_instant_actions ≡ b ∷ [])
    × (c'.effects ≡ publish_state c'.current_state ∷ c.effects)

start_both :
    (env : Adapter) (a b : Action) (id : Option String) (c : Controller)
    → active_order_id c ≡ some id
    → a.action_type ≡ "stateRequest"
    → is_hard a.blocking_type ≡ false
    → is_hard b.blocking_type ≡ false
    → Skips b c (
        process_instant_action_chunk env
          (update_fueled env (enough_fuel (both a b c)))
          none
          false
          (both a b c))
unfolding apply_status failure_errors update_state
start_both env a b id c o t e f =
    let (stop, p) =
      chunk_throws env 2 a b id (both a b c) refl (active_order_id-both a b c ∙ o) t e f in
    (_, p, refl, refl)

accepted_both :
    (env : Adapter) (a b : Action) (c : Controller)
    → c.current_instant_actions ≡ []
    → start_filtered env c (kept (a ∷ b ∷ []) c)
      ≡ process_instant_action_chunk env
          (update_fueled env (enough_fuel (both a b c)))
          none
          false
          (both a b c)
unfolding start_accepted
accepted_both env a b c h =
    ap
      (λ l.
        let pushed = record c { current_instant_actions = l ++ a ∷ b ∷ [] } in
        if any (λ x. is_hard x.blocking_type) l
        then done pushed
        else process_instant_action_chunk env (update_fueled env (enough_fuel pushed)) (last? l)
            (is_some (last? l)) pushed)
      h

-- `_processInstantActions` receives a request for the state and a further action, neither of them
-- hard and both executable, in this order and in another version than 1.1.0, while no instant action
-- is pending and an active order is a current one: then the request's end splices it out of the list
-- that the loop goes through by index, and the call throws. The new state is published, and the
-- further action is left pending without having been started.
pub process_instant_actions-skips :
    (env : Adapter) (a b : Action) (id : Option String) (instant : Option (List Action))
    (c : Controller)
    → (env.vda_version == "1.1.0") ≡ false
    → c.current_instant_actions ≡ []
    → active_order_id c ≡ some id
    → a.action_type ≡ "stateRequest"
    → is_hard a.blocking_type ≡ false
    → is_hard b.blocking_type ≡ false
    → check_instant_action env (instant_context b none id) c ≡ (true, c)
    → (c' : Controller) × (process_instant_actions env (conforming (some (a ∷ b ∷ [])) instant) c
        ≡ thrown c')
      × (c'.current_instant_actions ≡ b ∷ [])
      × (c'.effects ≡ publish_state c'.current_state ∷ c.effects)
unfolding process_instant_actions
process_instant_actions-skips env a b id instant c v h o t e f k =
    let (c', p, kept_b, published) = start_both env a b id c o t e f in
    (
      c',
      simp (v, filtered_pair env a b id c o t k) (accepted_both env a b c h ∙ p),
      kept_b,
      published,
    )
