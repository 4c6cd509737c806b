-- ===== src/Master/Orders/Actions.antt =====
-- What is told of the actions of an order: `_dispatchOrderState` of src/controller/
-- master-controller.ts.
use vda_5050_lib_js.Common.{
  All, Bool, Bool-cases, List, [], ap, false, filter, if◌then◌else◌, inl, inr, refl, sym, true, ℕ,
  ◌∙◌, ◌∷◌, ◌≡◌, ◌≢◌,
}
use vda_5050_lib_js.Vda.{ActionState, State}
use vda_5050_lib_js.Master.Controller.{Event, MasterController, OrderEventHandler, OrderStateCache}
use vda_5050_lib_js.Master.Orders.{dispatch_action_state, dispatch_action_states}
use vda_5050_lib_js.Master.Orders.News.{
  Distinct, after_lem, is_news, kept_fields, kept_ne, kept_self, news, quiet, tell,
}

module _ (k : ℕ) (state : State) where
  abbrev Listens : MasterController → Type 0
  Listens c = (c.caches k).event_handler.on_action_state_changed ≡ true

  step : ActionState → MasterController → MasterController
  step s c = dispatch_action_state k state s c

  step-Listens : (s : ActionState) (c : MasterController) → Listens c → Listens (step s c)
  unfolding step
  step-Listens s c on =
      ap (λ x. OrderEventHandler.on_action_state_changed (OrderStateCache.event_handler x))
        (after_lem k state s c on)
      ∙ ap OrderEventHandler.on_action_state_changed (kept_fields k state s (c.caches k)).1
      ∙ on

  step-mapped :
      (s : ActionState) (c : MasterController)
      → Listens c
      → ((step s c).caches k).mapped_actions ≡ (c.caches k).mapped_actions
  unfolding step
  step-mapped s c on =
      ap OrderStateCache.mapped_actions (after_lem k state s c on)
      ∙ (kept_fields k state s (c.caches k)).0

  step-is_news :
      (s t : ActionState) (c : MasterController)
      → Listens c
      → t.action_id ≢ s.action_id
      → is_news ((step s c).caches k) t ≡ is_news (c.caches k) t
  unfolding step
  step-is_news s t c on d =
      ap (λ x. is_news x t) (after_lem k state s c on) ∙ kept_ne k state s t (c.caches k) d

  step-filter :
      (s : ActionState) (ss : List ActionState) (c : MasterController)
      → Listens c
      → All (λ t. t.action_id ≢ s.action_id) ss
      → filter (is_news ((step s c).caches k)) ss ≡ filter (is_news (c.caches k)) ss
  step-filter s [] c on h = refl
  step-filter s (t ∷ ss) c on (d, h) = rw (step-is_news s t c on d) (
      ap (λ ts. if is_news (c.caches k) t then t ∷ ts else ts) (step-filter s ss c on h)
      ∙ joins (is_news (c.caches k) t))
    where
      joins :
          (b : Bool)
          → (if b then t ∷ filter (is_news (c.caches k)) ss else filter (is_news (c.caches k)) ss)
            ≡ (if b then t ∷ filter (is_news (c.caches k)) ss else filter (is_news (c.caches k)) ss)
      joins b = refl

  abbrev told : MasterController → List ActionState → List Event → List Event
  told c = tell k state (c.caches k).mapped_actions

  step-events :
      (s : ActionState) (ss : List ActionState) (c : MasterController)
      → Listens c
      → told c ss (step s c).events
        ≡ (if is_news (c.caches k) s then told c (s ∷ ss) c.events else told c ss c.events)
  unfolding step
  step-events s ss c on = elim (Bool-cases (is_news (c.caches k) s)) [
    | inl e ↦ rw e (ap (λ d. told c ss (MasterController.events d)) (news k state s c e on))
    | inr e ↦ rw e (ap (λ d. told c ss (MasterController.events d)) (quiet k state s c e))
  ]

  states-events :
      (ss : List ActionState) (c : MasterController)
      → Listens c
      → Distinct ss
      → (dispatch_action_states k state ss c).events
        ≡ told c (filter (is_news (c.caches k)) ss) c.events
  unfolding dispatch_action_states step
  states-events [] c on h = refl
  states-events (s ∷ ss) c on (others, h) =
      states-events ss (step s c) (step-Listens s c on) h
      ∙ ap (λ ts. tell k state ((step s c).caches k).mapped_actions ts (step s c).events)
          (step-filter s ss c on others)
      ∙ ap (λ m. tell k state m (filter (is_news (c.caches k)) ss) (step s c).events)
          (step-mapped s c on)
      ∙ step-events s (filter (is_news (c.caches k)) ss) c on
      ∙ moves (is_news (c.caches k) s)
    where
      moves :
          (b : Bool)
          → (if b
              then told c (s ∷ filter (is_news (c.caches k)) ss) c.events
              else told c (filter (is_news (c.caches k)) ss) c.events)
            ≡ told c
                (if b
                  then s ∷ filter (is_news (c.caches k)) ss
                  else filter (is_news (c.caches k)) ss)
                c.events
      moves true = refl
      moves false = refl

  stays :
      (s : ActionState) (ss : List ActionState) (c : MasterController)
      → Listens c
      → All (λ t. t.action_id ≢ s.action_id) ss
      → is_news ((dispatch_action_states k state ss c).caches k) s ≡ is_news (c.caches k) s
  unfolding dispatch_action_states step
  stays s [] c on h = refl
  stays s (t ∷ ss) c on (d, h) =
      stays s ss (step t c) (step-Listens t c on) h ∙ step-is_news t s c on (λ same. d (sym same))

  All-quiet :
      (ss : List ActionState) (c : MasterController)
      → Listens c
      → Distinct ss
      → All (λ s. is_news ((dispatch_action_states k state ss c).caches k) s ≡ false) ss
  unfolding dispatch_action_states step
  All-quiet [] c on h = tt
  All-quiet (s ∷ ss) c on (others, h) = (
    stays s ss (step s c) (step-Listens s c on) others
        ∙ ap (λ x. is_news x s) (after_lem k state s c on)
        ∙ kept_self k state s (c.caches k),
    All-quiet ss (step s c) (step-Listens s c on) h,
  )

  nothing_new :
      (ss : List ActionState) (c : MasterController)
      → All (λ s. is_news (c.caches k) s ≡ false) ss
      → dispatch_action_states k state ss c ≡ c
  unfolding dispatch_action_states
  nothing_new [] c h = refl
  nothing_new (s ∷ ss) c (e, h) =
      ap (dispatch_action_states k state ss) (quiet k state s c e) ∙ nothing_new ss c h

-- Of the action states that a vehicle reports, exactly those are told to the order's handler that
-- belong to the order and differ from the status told last, each once and in their order; the same
-- report for a second time tells nothing and changes nothing. Reports hold one state per action.
pub action_states-told :
    (k : ℕ) (state : State) (ss : List ActionState) (c : MasterController)
    → (c.caches k).event_handler.on_action_state_changed ≡ true
    → Distinct ss
    → ((dispatch_action_states k state ss c).events
        ≡ tell k state (c.caches k).mapped_actions (filter (is_news (c.caches k)) ss) c.events)
      × (dispatch_action_states k state ss (dispatch_action_states k state ss c)
          ≡ dispatch_action_states k state ss c)
action_states-told k state ss c on h = (
  states-events k state ss c on h,
  nothing_new k state ss (dispatch_action_states k state ss c) (All-quiet k state ss c on h),
)
