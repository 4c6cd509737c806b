-- ===== src/Master/Caches/Assignment.antt =====
-- Assigning an order, and what is left when its publication fails: `assignOrder` of src/controller/
-- master-controller.ts.
use mathlib.Core.Option
use mathlib.Core.Path.{subst}
use vda_5050_lib_js.Mqtt.AgvIdMap
use vda_5050_lib_js.Common.{
  ==_refl, Option, Option-cases, String, ap, eq_Bool, eq_Option, eq_String, eq_ℕ, false, inl, inr,
  is_some, none, refl, some, sym, ℕ, ◌∙◌, ◌∷◌, ◌≡◌, ◌⊎◌,
}
use vda_5050_lib_js.Vda.{AgvId, eq_AgvId}
use vda_5050_lib_js.Mqtt.AgvIdMap.{AgvIdMap, get}
use vda_5050_lib_js.Mqtt.AgvIdMap.Laws.{get-set_self}
use vda_5050_lib_js.Master.Controller.{
  MasterController, OrderEventHandler, OrderObject, OrderStateCache, emit, publish_order,
}
use vda_5050_lib_js.Master.Caches.{
  add_order_state_cache, assign_order, assignment_failed, enter,
  get_last_assigned_order_state_cache, get_order_state_cache, new_cache, no_orders,
  remove_order_state_cache,
}
use vda_5050_lib_js.Master.Caches.Found.{
  OtherKey, entry-entered_ne, entry-entered_self, found_in, get_last_assigned_lem,
  get_order_state_cache_lem, key_cases, last_in,
}
use vda_5050_lib_js.Master.Caches.Dropped.{IsDropped}
use vda_5050_lib_js.Master.Consistent.{Frame-IsConsistent, IsConsistent, emit-Frame}
use vda_5050_lib_js.Master.Consistent.Removal.{removed-IsDropped}
use vda_5050_lib_js.Master.Consistent.Assigned.{added-IsConsistent}

module _ (a : AgvId) (order : OrderObject) (handler : OrderEventHandler)
    (c : MasterController) where
  abbrev assigned : MasterController
  assigned = assign_order a order handler c

  abbrev added : MasterController
  added = add_order_state_cache a order handler c

  abbrev found : AgvId → String → ℕ → MasterController → Option ℕ
  found = get_order_state_cache

  discarded : (k : ℕ) → found a order.order_id order.order_update_id c ≡ some k → assigned ≡ c
  unfolding assign_order
  discarded k e = rw (e, is_some) refl

  taken :
      found a order.order_id order.order_update_id c ≡ none
      → assigned ≡ emit (publish_order a order) added
  unfolding assign_order
  taken e = rw (e, is_some) refl

  -- The record of what is found afterwards.
  found_here : found a order.order_id order.order_update_id added ≡ some c.next_cache
  unfolding add_order_state_cache
  found_here =
      get_order_state_cache_lem a order.order_id order.order_update_id added
      ∙ entry-entered_self a order.order_id order.order_update_id c.next_cache c.current_orders

  found_elsewhere :
      (b : AgvId) (j : String) (v : ℕ)
      → OtherKey a order.order_id order.order_update_id b j v
      → found b j v added ≡ found b j v c
  unfolding add_order_state_cache
  found_elsewhere b j v d =
      get_order_state_cache_lem b j v added
      ∙ entry-entered_ne a order.order_id order.order_update_id c.next_cache b j v c.current_orders
          d
      ∙ sym (get_order_state_cache_lem b j v c)

  last_here : get_last_assigned_order_state_cache a added ≡ some c.next_cache
  unfolding add_order_state_cache
  last_here =
      get_last_assigned_lem a added
      ∙ ap last_in (
          get-set_self a
            (enter order.order_id order.order_update_id c.next_cache
              (Option.get_or (AgvIdMap.get a c.current_orders) no_orders))
            c.current_orders)

  cache_here : added.caches c.next_cache ≡ new_cache a order handler c
  unfolding add_order_state_cache
  cache_here = rw (==_refl c.next_cache) refl

  added-events : added.events ≡ c.events
  unfolding add_order_state_cache
  added-events = refl

  abbrev failed : MasterController
  failed = remove_order_state_cache c.next_cache false (emit (publish_order a order) added)

  failed-IsDropped :
      IsConsistent c
      → IsDropped a order.order_id order.order_update_id added.current_orders failed.current_orders
  unfolding new_cache
  failed-IsDropped v =
      let told = emit (publish_order a order) added in
      let w =
        Frame-IsConsistent added told (emit-Frame (publish_order a order) added (λ k. refl))
          (added-IsConsistent a order handler c v) in
      subst
        (λ (x : OrderStateCache).
          IsDropped x.agv_id x.order.order_id x.order.order_update_id added.current_orders
            failed.current_orders)
        cache_here (removed-IsDropped told w c.next_cache false)

  failed_found :
      IsConsistent c
      → found a order.order_id order.order_update_id c ≡ none
      → (b : AgvId) (j : String) (v : ℕ) → found b j v failed ≡ found b j v c
  failed_found v e b j u = elim (key_cases a order.order_id order.order_update_id b j u) [
    | inl (p, q, r) ↦
        rw⁻¹ (p, q, r)
          (get_order_state_cache_lem a order.order_id order.order_update_id failed
            ∙ (failed-IsDropped v).gone
            ∙ sym e)
    | inr d ↦
        get_order_state_cache_lem b j u failed
        ∙ (failed-IsDropped v).others b j u d
        ∙ sym (get_order_state_cache_lem b j u added)
        ∙ found_elsewhere b j u d
  ]

  -- The last order that a failed assignment leaves to the vehicle.
  abbrev pub LastLeft : MasterController → Type 0
  LastLeft d =
      (((j : String) (v : ℕ) → found a j v c ≡ none)
        × (get_last_assigned_order_state_cache a d ≡ none))
      ⊎ (get_last_assigned_order_state_cache a d ≡ some c.next_cache)

  failed-LastLeft :
      IsConsistent c → found a order.order_id order.order_update_id c ≡ none → LastLeft failed
  failed-LastLeft v e = elim ((failed-IsDropped v).last a) [
    | inr gone ↦ inl (
      λ j u.
          sym (failed_found v e a j u)
          ∙ get_order_state_cache_lem a j u failed
          ∙ ap (λ o. found_in o j u) gone,
      get_last_assigned_lem a failed ∙ ap last_in gone,
    )
    | inl kept ↦
        inr
          (get_last_assigned_lem a failed ∙ kept ∙ sym (get_last_assigned_lem a added) ∙ last_here)
  ]

-- The order has been taken on under a new cache, and published.
pub record IsAssigned (a : AgvId) (order : OrderObject) (handler : OrderEventHandler)
    (c d : MasterController) : Type 0 where
  pub published : d.events ≡ publish_order a order ∷ c.events
  pub found : get_order_state_cache a order.order_id order.order_update_id d ≡ some c.next_cache
  pub others :
      (b : AgvId) (j : String) (v : ℕ)
      → OtherKey a order.order_id order.order_update_id b j v
      → get_order_state_cache b j v d ≡ get_order_state_cache b j v c
  pub last : get_last_assigned_order_state_cache a d ≡ some c.next_cache
  pub cache : d.caches c.next_cache ≡ new_cache a order handler c
  pub undone :
      (b : AgvId) (j : String) (v : ℕ)
      → get_order_state_cache b j v (assignment_failed c.next_cache d)
        ≡ get_order_state_cache b j v c
  pub last_left : LastLeft a order handler c (assignment_failed c.next_cache d)

-- An order whose ids are in use for the vehicle is discarded. Any other is published once and found
-- under its ids, and it alone, with a new cache that is the last one of the vehicle. If the
-- publication fails, every order is found again by its ids as before the assignment; but the last
-- order of the vehicle stays the failed one, or there is none any more, where no order is found for
-- the vehicle.
pub assign_order-IsAssigned :
    (a : AgvId) (order : OrderObject) (handler : OrderEventHandler) (c : MasterController)
    → IsConsistent c
    → ((k : ℕ) × (get_order_state_cache a order.order_id order.order_update_id c ≡ some k)
        × (assign_order a order handler c ≡ c))
      ⊎ ((get_order_state_cache a order.order_id order.order_update_id c ≡ none)
          × IsAssigned a order handler c (assign_order a order handler c))
unfolding assignment_failed get_order_state_cache get_last_assigned_order_state_cache
assign_order-IsAssigned a order handler c v =
    elim (Option-cases (get_order_state_cache a order.order_id order.order_update_id c)) [
      | inr (k, e) ↦ inl (k, e, discarded a order handler c k e)
      | inl e ↦ inr (
        e,
        rw (taken a order handler c e) (record {
          published = published_lem;
          found = found_here a order handler c;
          others = found_elsewhere a order handler c;
          last = last_here a order handler c;
          cache = cache_here a order handler c;
          undone = failed_found a order handler c v e;
          last_left = failed-LastLeft a order handler c v e;
        }),
      )
    ]
  where
    published_lem :
        (emit (publish_order a order) (add_order_state_cache a order handler c)).events
        ≡ publish_order a order ∷ c.events
    published_lem = ap (λ es. publish_order a order ∷ es) (added-events a order handler c)
