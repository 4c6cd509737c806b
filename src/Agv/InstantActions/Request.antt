-- ===== src/Agv/InstantActions/Request.antt =====
-- The round of `_processInstantActionChunk` in which a request for the state ends at once.
use vda_5050_lib_js.Common.Map
-- The request has ended: the other action is left, and not started.
use vda_5050_lib_js.Common.{
  ==_refl, Bool, Option, String, [], ap, arith, eq_Option, eq_String, eq_iff, eq_ℕ, false,
  get_elem?, none, refl, some, suc, ℕ, ◌∙◌, ◌∷◌, ◌≡◌,
}
use vda_5050_lib_js.Vda.{Action, is_ended, is_hard}
use vda_5050_lib_js.Agv.Controller.{Adapter, Controller, done, thrown, ◌>>=◌}
use vda_5050_lib_js.Agv.Chunk.{get_hard_blocking_action_after, index_of, next_chunk}
use vda_5050_lib_js.Agv.Traversal.{or_throw}
use vda_5050_lib_js.Agv.Status.{
  Update, active_order_id, drop_instant_action, instant_context, on_ended, on_instant_action_ended,
  process_instant_action, process_instant_action_chunk, process_instant_each, run_instant_chunk,
  start_instant_action, state_reported, update_fueled,
}
use vda_5050_lib_js.Agv.Status.Apply.{apply_status}

ended_first :
    (env : Adapter) (update : Update) (a b : Action) (c : Controller)
    → c.current_instant_actions ≡ a ∷ b ∷ []
    → is_hard a.blocking_type ≡ false
    → is_hard b.blocking_type ≡ false
    → on_instant_action_ended env update a c ≡ done (record c { current_instant_actions = b ∷ [] })
unfolding on_instant_action_ended drop_instant_action get_hard_blocking_action_after index_of
ended_first env update a b c h e f = ground (arith, ==_refl a.action_id)

each_suc :
    (env : Adapter) (update : Update) (stop : Bool) (i n : ℕ) (c : Controller)
    → process_instant_each env update stop i (suc n) c ≡ (
        or_throw c
          (get_elem? c.current_instant_actions i)
          (λ a. process_instant_action env update a stop c)
        >>= process_instant_each env update stop (suc i) n)
unfolding process_instant_each
each_suc env update stop i n c = refl

-- A round that returns, and a round whose index lies past the end of the list.
each_step :
    (env : Adapter) (update : Update) (stop : Bool) (i n : ℕ) (a : Action) (c c' : Controller)
    → get_elem? c.current_instant_actions i ≡ some a
    → process_instant_action env update a stop c ≡ done c'
    → process_instant_each env update stop i (suc n) c
      ≡ process_instant_each env update stop (suc i) n c'
each_step env update stop i n a c c' e p = rw (each_suc env update stop i n c, e, p)

each_past_end :
    (env : Adapter) (update : Update) (stop : Bool) (i n : ℕ) (c : Controller)
    → get_elem? c.current_instant_actions i ≡ none
    → process_instant_each env update stop i (suc n) c ≡ thrown c
each_past_end env update stop i n c e = rw (each_suc env update stop i n c, e)

-- Two actions that are not hard make up one chunk.
whole_chunk :
    (a b : Action)
    → is_hard a.blocking_type ≡ false
    → is_hard b.blocking_type ≡ false
    → (stop : Bool) × (next_chunk none (a ∷ b ∷ [])
        ≡ record { start = 0; hard_index = none; stop_index = 2; stop_driving = stop })
unfolding next_chunk
whole_chunk a b e f = ((next_chunk none (a ∷ b ∷ [])).stop_driving, ground arith)

module _ (env : Adapter) (fuel : ℕ) (a b : Action) (id : Option String) where
  -- What the request leaves, from a state in which both actions are pending.
  abbrev pub reported_by : Bool → Controller → Controller
  reported_by stop c = record (apply_status (instant_context a (some stop) id) state_reported c) {
    current_instant_actions = b ∷ [];
  }

  abbrev pub counted : Controller → Controller
  counted c = record c {
    instant_actions_ended_publish_count =
        Map.set a.action_id 0 c.instant_actions_ended_publish_count;
  }

  request_ends :
      (stop : Bool) (c : Controller)
      → c.current_instant_actions ≡ a ∷ b ∷ []
      → is_hard a.blocking_type ≡ false
      → is_hard b.blocking_type ≡ false
      → update_fueled env (suc fuel) (instant_context a (some stop) id) state_reported c
        ≡ done (reported_by stop c)
  unfolding update_fueled is_ended on_ended
  request_ends stop c h e f =
      ended_first env (update_fueled env fuel) a b
        (apply_status (instant_context a (some stop) id) state_reported c) h e f

  first_round :
      (stop : Bool) (c : Controller)
      → c.current_instant_actions ≡ a ∷ b ∷ []
      → active_order_id c ≡ some id
      → a.action_type ≡ "stateRequest"
      → is_hard a.blocking_type ≡ false
      → is_hard b.blocking_type ≡ false
      → process_instant_action env (update_fueled env (suc fuel)) a stop c
        ≡ done (reported_by stop (counted c))
  unfolding process_instant_action start_instant_action
  first_round stop c h o t e f =
      simp (o, (eq_iff a.action_type "stateRequest").1 t) (request_ends stop (counted c) h e f)

  round_throws :
      (stop : Bool) (c : Controller)
      → c.current_instant_actions ≡ a ∷ b ∷ []
      → active_order_id c ≡ some id
      → a.action_type ≡ "stateRequest"
      → is_hard a.blocking_type ≡ false
      → is_hard b.blocking_type ≡ false
      → process_instant_each env (update_fueled env (suc fuel)) stop 0 2 c
        ≡ thrown (reported_by stop (counted c))
  round_throws stop c h o t e f =
      each_step env (update_fueled env (suc fuel)) stop 0 1 a c (reported_by stop (counted c))
        (ap (λ l. get_elem? l 0) h) (first_round stop c h o t e f)
      ∙ each_past_end env (update_fueled env (suc fuel)) stop 1 0 (reported_by stop (counted c))
          refl

  run_whole :
      (stop : Bool) (c : Controller)
      → c.current_instant_actions ≡ a ∷ b ∷ []
      → active_order_id c ≡ some id
      → a.action_type ≡ "stateRequest"
      → is_hard a.blocking_type ≡ false
      → is_hard b.blocking_type ≡ false
      → run_instant_chunk env
          (update_fueled env (suc fuel))
          (record { start = 0; hard_index = none; stop_index = 2; stop_driving = stop })
          false
          c
        ≡ thrown (reported_by stop (counted c))
  unfolding run_instant_chunk
  run_whole = round_throws

  pub chunk_throws :
      (c : Controller)
      → c.current_instant_actions ≡ a ∷ b ∷ []
      → active_order_id c ≡ some id
      → a.action_type ≡ "stateRequest"
      → is_hard a.blocking_type ≡ false
      → is_hard b.blocking_type ≡ false
      → (stop : Bool) × (process_instant_action_chunk env
            (update_fueled env (suc fuel))
            none
            false
            c
          ≡ thrown (reported_by stop (counted c)))
  unfolding process_instant_action_chunk
  chunk_throws c h o t e f =
      let (stop, k) = whole_chunk a b e f in
      (
        stop,
        ap (λ l. run_instant_chunk env (update_fueled env (suc fuel)) (next_chunk none l) false c) h
            ∙ ap (λ m. run_instant_chunk env (update_fueled env (suc fuel)) m false c) k
            ∙ run_whole stop c h o t e f,
      )
