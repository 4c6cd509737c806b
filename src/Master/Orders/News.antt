-- ===== src/Master/Orders/News.antt =====
-- The single action state: whether it is told, and what is kept of it, in `_dispatchOrderState` of
-- src/controller/master-controller.ts.
use vda_5050_lib_js.Common.Map
use vda_5050_lib_js.Common.{
  ==_refl, All, Bool, Bool-cases, List, Option, Option-cases, String, [], ap, eq_Bool, eq_Option,
  eq_String, eq_ℕ, false, if◌then◌else◌, inl, inr, is_some, none, not, refl, some, sym, true, ℕ,
  ◌&&◌, ◌∙◌, ◌∷◌, ◌≡◌, ◌≢◌,
}
use vda_5050_lib_js.Vda.{ActionState, State, eq_AgvId}
use vda_5050_lib_js.Common.Map.{Map, get-set_ne, get-set_self}
use vda_5050_lib_js.Master.Controller.{
  Event, MappedAction, MasterController, OrderStateCache, action_state_changed, change,
}
use vda_5050_lib_js.Master.Orders.{
  dispatch_action_state, failure, keep_action_state, same_status, status_number,
}

-- The action belongs to the order, and its status is another one than that told last.
abbrev pub is_news : OrderStateCache → ActionState → Bool
is_news cache s =
    is_some (Map.get s.action_id cache.mapped_actions)
    && not (same_status (Map.get s.action_id cache.last_action_states) s.action_status)

-- No two states are of one action.
abbrev pub Distinct : List ActionState → Type 0
Distinct [] = Unit
Distinct (s ∷ ss) = All (λ t. t.action_id ≢ s.action_id) ss × Distinct ss

abbrev pub told_of : ℕ → State → Map String MappedAction → ActionState → List Event → List Event
told_of k state mapped s es = elim (Map.get s.action_id mapped) [
  | none ↦ es
  | some m ↦ action_state_changed k s (failure false s state) m.action m.target state ∷ es
]

-- The events for the states, one for each, newest first.
abbrev pub tell : ℕ → State → Map String MappedAction → List ActionState → List Event → List Event
tell k state mapped [] es = es
tell k state mapped (s ∷ ss) es = tell k state mapped ss (told_of k state mapped s es)

not-false : (b : Bool) → not b ≡ false → b ≡ true
not-false true e = refl
not-false false e = cc

not-true : (b : Bool) → not b ≡ true → b ≡ false
not-true true e = cc
not-true false e = refl

written {ℓ} : {A : Type ℓ} {b : Bool} → b ≡ true → (x y : A) → (if b then x else y) ≡ x
written e x y = rw e refl

module _ (k : ℕ) (state : State) where
  pub quiet :
      (s : ActionState) (c : MasterController)
      → is_news (c.caches k) s ≡ false
      → dispatch_action_state k state s c ≡ c
  unfolding dispatch_action_state
  quiet s c h = elim (Option-cases (Map.get s.action_id (c.caches k).mapped_actions)) [
    | inl e ↦ rw (e, dispatch_action_state) refl
    | inr (m, e) ↦
        let same : same_status (Map.get s.action_id (c.caches k).last_action_states) s.action_status
            ≡ true =
          not-false _ (rw e at h) in
        rw (e, dispatch_action_state) (rw same refl)
  ]

  abbrev changed : ActionState → MasterController → MasterController
  changed s c = change k (keep_action_state s.action_id s) c

  pub news :
      (s : ActionState) (c : MasterController)
      → is_news (c.caches k) s ≡ true
      → (c.caches k).event_handler.on_action_state_changed ≡ true
      → dispatch_action_state k state s c
        ≡ record (changed s c) { events = told_of k state (c.caches k).mapped_actions s c.events }
  unfolding dispatch_action_state
  news s c h on = elim (Option-cases (Map.get s.action_id (c.caches k).mapped_actions)) [
    | inl e ↦ let no : false ≡ true = rw e at h in cc
    | inr (m, e) ↦
        let new : same_status (Map.get s.action_id (c.caches k).last_action_states) s.action_status
            ≡ false =
          not-true _ (rw e at h) in
        rw (e, dispatch_action_state, told_of) (rw new (written on _ _))
  ]

  -- The cache afterwards: only the states that were told may differ.
  abbrev after : ActionState → MasterController → OrderStateCache
  after s c = (dispatch_action_state k state s c).caches k

  abbrev kept : ActionState → OrderStateCache → OrderStateCache
  kept s cache = if is_news cache s then keep_action_state s.action_id s cache else cache

  kept_news :
      (s : ActionState) (cache : OrderStateCache)
      → is_news cache s ≡ true
      → kept s cache ≡ keep_action_state s.action_id s cache
  kept_news s cache e = rw e refl

  kept_quiet :
      (s : ActionState) (cache : OrderStateCache) → is_news cache s ≡ false → kept s cache ≡ cache
  kept_quiet s cache e = rw e refl

  pub after_lem :
      (s : ActionState) (c : MasterController)
      → (c.caches k).event_handler.on_action_state_changed ≡ true
      → after s c ≡ kept s (c.caches k)
  after_lem s c on = elim (Bool-cases (is_news (c.caches k) s)) [
    | inl e ↦
        ap (λ d. MasterController.caches d k) (news s c e on)
        ∙ written (==_refl k) (keep_action_state s.action_id s (c.caches k)) (c.caches k)
        ∙ sym (kept_news s (c.caches k) e)
    | inr e ↦
        ap (λ d. MasterController.caches d k) (quiet s c e) ∙ sym (kept_quiet s (c.caches k) e)
  ]

  -- The status that was told last.
  abbrev last_told : OrderStateCache → String → Option ActionState
  last_told cache id = Map.get id cache.last_action_states

  same_status_refl : (s : ActionState) → same_status (some s) s.action_status ≡ true
  same_status_refl s = ==_refl (status_number s.action_status)

  pub kept_self : (s : ActionState) (cache : OrderStateCache) → is_news (kept s cache) s ≡ false
  kept_self s cache = elim (Bool-cases (is_news cache s)) [
    | inr e ↦ rw (kept_quiet s cache e) e
    | inl e ↦ rw (kept_news s cache e) (
        rw (Map.get-set_self s.action_id s cache.last_action_states) (
          rw (same_status_refl s) (false_and (is_some (Map.get s.action_id cache.mapped_actions)))))
  ]
    where
      false_and : (b : Bool) → (b && false) ≡ false
      false_and true = refl
      false_and false = refl

  pub kept_ne :
      (s t : ActionState) (cache : OrderStateCache)
      → t.action_id ≢ s.action_id
      → is_news (kept s cache) t ≡ is_news cache t
  kept_ne s t cache d = elim (Bool-cases (is_news cache s)) [
    | inr e ↦ ap (λ x. is_news x t) (kept_quiet s cache e)
    | inl e ↦
        ap (λ x. is_news x t) (kept_news s cache e)
        ∙ rw
            (Map.get-set_ne s.action_id t.action_id s cache.last_action_states
              (λ same. d (sym same)))
            refl
  ]

  pub kept_fields :
      (s : ActionState) (cache : OrderStateCache)
      → ((kept s cache).mapped_actions ≡ cache.mapped_actions)
        × ((kept s cache).event_handler ≡ cache.event_handler)
  kept_fields s cache = elim (Bool-cases (is_news cache s)) [
    | inl e ↦ rw (kept_news s cache e) (refl, refl)
    | inr e ↦ rw (kept_quiet s cache e) (refl, refl)
  ]
