-- ===== src/Agv/Status/Inner.antt =====
-- What calls `_updateActionStatus` keeps a bound on the number of pending instant actions that the
-- inner call keeps.
-- An inner call that keeps the bound `n` on lists within it.
use vda_5050_lib_js.Common.{
  Bool, Bool-cases, List, Option, Option-cases, [], eq_Option, eq_String, eq_ℕ, get_elem?, inl, inr,
  some, suc, true, zero, ℕ, ◌-◌, ◌==◌, ◌||◌, ◌∷◌,
}
use vda_5050_lib_js.Vda.{Action, ActionState, Order}
use vda_5050_lib_js.Agv.Controller.{
  ActionContext, ActionStatusChangeInfo, Adapter, Controller, cancel_action, done, emit,
}
use vda_5050_lib_js.Agv.Chunk.{Chunk, next_chunk}
use vda_5050_lib_js.Agv.Traversal.{or_throw, with_order}
use vda_5050_lib_js.Agv.Status.{
  Update, active_order_id, instant_context, process_instant_action, process_instant_action_chunk,
  process_instant_each, run_instant_chunk, start_instant_action, state_reported,
  unsupported_factsheet,
}
use vda_5050_lib_js.Agv.Status.Cancel.{cancel_context, cancel_each, cancel_or_stop, cancel_order}
use vda_5050_lib_js.Agv.Status.Keeps.{Holds, Keeps, Keeps-bind, or_throw-Keeps, with_order-Keeps}

abbrev pub Fits : ℕ → Option Order → Update → Type 0
Fits n r update =
    (context : ActionContext) (change : ActionStatusChangeInfo) (c : Controller)
    → Holds n r c
    → Keeps n r (update context change c)

module _ (env : Adapter) (n : ℕ) (r : Option Order) (update : Update) (fits : Fits n r update) where
  cancel_each-Keeps :
      (states : List ActionState) (c : Controller) → Holds n r c → Keeps n r (cancel_each states c)
  unfolding cancel_each
  cancel_each-Keeps [] c h = h
  cancel_each-Keeps (s ∷ states) c h =
      Keeps-bind n r (with_order c λ order. done (emit (cancel_action (cancel_context order s)) c))
        (cancel_each states) (with_order-Keeps n r c _ h (λ order. h))
        (λ c' h'. cancel_each-Keeps states c' h')

  cancel_or_stop-Keeps :
      (states : List ActionState) (c : Controller)
      → Holds n r c
      → Keeps n r (cancel_or_stop states c)
  unfolding cancel_or_stop
  cancel_or_stop-Keeps [] c h = h
  cancel_or_stop-Keeps (s ∷ states) c h = cancel_each-Keeps (s ∷ states) c h

  cancel_order-Keeps :
      (context : ActionContext) (c : Controller)
      → Holds n r c
      → Keeps n r (cancel_order update context c)
  unfolding cancel_order
  cancel_order-Keeps context c h =
      Keeps-bind n r (update context _ _) _ (fits context _ _ h)
        (λ c' h'. cancel_or_stop-Keeps _ c' h')

  start-Keeps :
      (context : ActionContext) (c : Controller)
      → Holds n r c
      → Keeps n r (start_instant_action env update context c)
  unfolding start_instant_action
  start-Keeps context c h = elim (Bool-cases (context.action.action_type == "stateRequest")) [
    | inl e ↦ simp e (fits context state_reported c h)
    | inr e₁ ↦ elim (Bool-cases (context.action.action_type == "cancelOrder")) [
      | inl e ↦ simp (e₁, e) (cancel_order-Keeps context c h)
      | inr e₂ ↦ elim (Bool-cases (context.action.action_type == "factsheetRequest")) [
        | inl e ↦ elim (Bool-cases (env.vda_version == "2.0.0" || env.vda_version == "2.1.0")) [
          | inl v ↦ simp (e₁, e₂, e, v) h
          | inr v ↦ simp (e₁, e₂, e, v) (fits context (unsupported_factsheet env) c h)
        ]
        | inr e ↦ simp (e₁, e₂, e) h
      ]
    ]
  ]

  pub process_instant_action-Keeps :
      (a : Action) (b : Bool) (c : Controller)
      → Holds n r c
      → Keeps n r (process_instant_action env update a b c)
  unfolding process_instant_action
  process_instant_action-Keeps a b c h =
      or_throw-Keeps n r c (active_order_id c) _ h
        (λ id. start-Keeps (instant_context a (some b) id) _ h)

  process_instant_each-Keeps :
      (b : Bool) (i rounds : ℕ) (c : Controller)
      → Holds n r c
      → Keeps n r (process_instant_each env update b i rounds c)
  unfolding process_instant_each
  process_instant_each-Keeps b i zero c h = h
  process_instant_each-Keeps b i (suc rounds) c h =
      Keeps-bind n r
        (or_throw c (get_elem? c.current_instant_actions i)
          (λ a. process_instant_action env update a b c))
        (process_instant_each env update b (suc i) rounds)
        (or_throw-Keeps n r c (get_elem? c.current_instant_actions i) _ h
          (λ a. process_instant_action-Keeps a b c h))
        (λ c' h'. process_instant_each-Keeps b (suc i) rounds c' h')

  run_instant_chunk-Keeps :
      (k : Chunk) (skip : Bool) (c : Controller)
      → Holds n r c
      → Keeps n r (run_instant_chunk env update k skip c)
  unfolding run_instant_chunk
  run_instant_chunk-Keeps k skip c h = elim (Bool-cases (k.stop_index == k.start)) [
    | inl e ↦ elim (Bool-cases skip) [
      | inl e' ↦ simp (e, e') h
      | inr e' ↦ elim (Option-cases k.hard_index) [
        | inl o ↦ simp (e, e', o) h
        | inr (i, o) ↦
            simp (e, e', o)
              (or_throw-Keeps n r c (get_elem? c.current_instant_actions i) _ h
                (λ a. process_instant_action-Keeps a true c h))
      ]
    ]
    | inr e ↦
        simp e (process_instant_each-Keeps k.stop_driving k.start (k.stop_index - k.start) c h)
  ]

  pub process_instant_action_chunk-Keeps :
      (after : Option Action) (skip : Bool) (c : Controller)
      → Holds n r c
      → Keeps n r (process_instant_action_chunk env update after skip c)
  unfolding process_instant_action_chunk
  process_instant_action_chunk-Keeps after skip c =
      run_instant_chunk-Keeps (next_chunk after c.current_instant_actions) skip c
