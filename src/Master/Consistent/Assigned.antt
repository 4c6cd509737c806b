-- ===== src/Master/Consistent/Assigned.antt =====
-- An assigned order is entered under its ids, with a cache of its own: `assignOrder` of src/
-- controller/master-controller.ts.
use mathlib.Core.Option
use vda_5050_lib_js.Mqtt.AgvIdMap
use vda_5050_lib_js.Common.{
  Bool-cases, String, ap, arith, eq_Bool, eq_Option, eq_String, eq_of_==, eq_ℕ, false, inl, inr,
  is_some, ne_of_==, refl, some, sym, true, ℕ, ◌+◌, ◌<◌, ◌==◌, ◌∙◌, ◌≡◌, ◌≢◌,
}
use vda_5050_lib_js.Vda.{AgvId, eq_AgvId}
use vda_5050_lib_js.Mqtt.AgvIdMap.{AgvIdMap, get}
use vda_5050_lib_js.Mqtt.AgvIdMap.Laws.{get-set_ne, get-set_self}
use vda_5050_lib_js.Master.Controller.{
  MasterController, OrderEventHandler, OrderObject, OrderStateCache, emit, publish_order,
}
use vda_5050_lib_js.Master.Caches.{
  add_order_state_cache, assign_order, enter, get_order_state_cache, new_cache, no_orders,
}
use vda_5050_lib_js.Master.Caches.Found.{
  Orders, entered, entered-IsSoundMap, entry, entry-entered_ne, entry-entered_self,
  get_last_assigned_lem, key_cases, last_in,
}
use vda_5050_lib_js.Master.Consistent.{
  Frame-IsConsistent, HoldsOrder, IsConsistent, bit, completions, emit-Frame,
}

module _ (agv_id : AgvId) (order : OrderObject) (handler : OrderEventHandler) (c : MasterController)
    (v : IsConsistent c) where
  abbrev added : MasterController
  added = add_order_state_cache agv_id order handler c

  abbrev orders_with : Orders
  orders_with = entered agv_id order.order_id order.order_update_id c.next_cache c.current_orders

  added_orders : added.current_orders ≡ orders_with
  unfolding add_order_state_cache
  added_orders = refl

  -- The cache at a number: the new one, or as it was.
  at_next : (k : ℕ) → k ≡ c.next_cache → added.caches k ≡ new_cache agv_id order handler c
  unfolding add_order_state_cache
  at_next k e = let t : (k == c.next_cache) ≡ true = ground arith in rw t refl

  elsewhere : (k : ℕ) → k ≢ c.next_cache → added.caches k ≡ c.caches k
  unfolding add_order_state_cache
  elsewhere k d = let t : (k == c.next_cache) ≡ false = ground arith in rw t refl

  below_next : (k : ℕ) → k < c.next_cache → added.caches k ≡ c.caches k
  below_next k h = elsewhere k (λ e. absurd (omega arith))

  new-HoldsOrder :
      HoldsOrder (new_cache agv_id order handler c) agv_id order.order_id order.order_update_id
  unfolding new_cache
  new-HoldsOrder = (refl, refl, refl)

  added-held :
      (a : AgvId) (i : String) (u k : ℕ)
      → entry orders_with a i u ≡ some k
      → (k < c.next_cache + 1) × HoldsOrder (added.caches k) a i u
  added-held a i u k e = elim (key_cases agv_id order.order_id order.order_update_id a i u) [
    | inl (p, q, r) ↦
        let here : entry orders_with a i u ≡ some c.next_cache =
          rw⁻¹ (p, q, r)
            (entry-entered_self agv_id order.order_id order.order_update_id c.next_cache
              c.current_orders) in
        let same : k ≡ c.next_cache = ground arith in
        (omega arith, rw (at_next k same) (rw⁻¹ (p, q, r) new-HoldsOrder))
    | inr other ↦
        let (below, holds) = v.held a i u k (
          sym (
            entry-entered_ne agv_id order.order_id order.order_update_id c.next_cache a i u
              c.current_orders other)
          ∙ e) in
        (omega arith, rw (below_next k below) holds)
  ]

  new-last :
      (new_cache agv_id order handler c).last_cache ≡ last_in (AgvIdMap.get agv_id c.current_orders)
  unfolding new_cache
  new-last = get_last_assigned_lem agv_id c

  added-newest :
      (a : AgvId) (k : ℕ) → last_in (AgvIdMap.get a orders_with) ≡ some k → k < c.next_cache + 1
  added-newest a k e =
      let o = Option.get_or (AgvIdMap.get agv_id c.current_orders) no_orders in
      let entered_orders = enter order.order_id order.order_update_id c.next_cache o in
      elim (Bool-cases (agv_id == a)) [
        | inl same ↦
            let here : some c.next_cache ≡ some k =
              sym (ap last_in (get-set_self agv_id entered_orders c.current_orders))
              ∙ ap (λ x. last_in (AgvIdMap.get x orders_with)) (eq_of_== agv_id a same)
              ∙ e in
            let same_number : c.next_cache ≡ k = cc in omega arith
        | inr other ↦
            let below : k < c.next_cache = v.newest a k (
              sym (
                ap last_in
                  (get-set_ne agv_id a entered_orders c.current_orders (ne_of_== agv_id a other)))
              ∙ e) in
            omega arith
      ]

  added-older : (k j : ℕ) → k < c.next_cache + 1 → (added.caches k).last_cache ≡ some j → j < k
  added-older k j h e = elim (Bool-cases (k == c.next_cache)) [
    | inl t ↦
        let same : k ≡ c.next_cache = eq_of_== k c.next_cache t in
        let older : j < c.next_cache =
          v.newest agv_id j
            (sym new-last ∙ sym (ap (λ x. OrderStateCache.last_cache x) (at_next k same)) ∙ e) in
        omega arith
    | inr t ↦
        let below : k < c.next_cache = ground arith in
        v.older k j below (sym (ap (λ x. OrderStateCache.last_cache x) (below_next k below)) ∙ e)
  ]

  new-invoked : (new_cache agv_id order handler c).is_order_processed_handler_invoked ≡ false
  unfolding new_cache
  new-invoked = refl

  abbrev invoked : OrderStateCache → ℕ
  invoked x = bit x.is_order_processed_handler_invoked

  added-once : (k : ℕ) → k < c.next_cache + 1 → completions k c.events ≡ invoked (added.caches k)
  added-once k h = elim (Bool-cases (k == c.next_cache)) [
    | inl t ↦
        let same : k ≡ c.next_cache = eq_of_== k c.next_cache t in
        v.unheard k (omega arith) ∙ sym (ap invoked (at_next k same) ∙ ap bit new-invoked)
    | inr t ↦
        let below : k < c.next_cache = ground arith in
        v.once k below ∙ sym (ap invoked (below_next k below))
  ]

  pub added-IsConsistent : IsConsistent (add_order_state_cache agv_id order handler c)
  unfolding add_order_state_cache
  added-IsConsistent = record {
    sound =
        entered-IsSoundMap agv_id order.order_id order.order_update_id c.next_cache c.current_orders
          v.sound;
    held = added-held;
    newest = added-newest;
    older = added-older;
    once = added-once;
    unheard = λ k above. v.unheard k (omega arith);
  }

  pub assign-IsConsistent : IsConsistent (assign_order agv_id order handler c)
  unfolding assign_order
  assign-IsConsistent =
      elim (Bool-cases
        (is_some (get_order_state_cache agv_id order.order_id order.order_update_id c))) [
          | inl known ↦ rw known v
          | inr new ↦ rw new (
              Frame-IsConsistent added (emit (publish_order agv_id order) added)
                (emit-Frame (publish_order agv_id order) added (λ k. refl)) added-IsConsistent)
        ]
