-- ===== src/Master/Caches/Dropped.antt =====
-- What is found after the cache of an order has been removed: `_removeOrderStateCache` of src/
-- controller/master-controller.ts.
use vda_5050_lib_js.Common.Map
use vda_5050_lib_js.Mqtt.AgvIdMap
use vda_5050_lib_js.Common.{
  Bool-cases, Option-cases, String, ap, eq_Bool, eq_Option, eq_String, eq_of_==, eq_ℕ, inl, inr,
  ne_of_==, none, refl, some, sym, ℕ, ◌==◌, ◌∙◌, ◌≡◌, ◌⊎◌,
}
use vda_5050_lib_js.Vda.{AgvId, eq_AgvId}
use vda_5050_lib_js.Common.Map.{All-get, IsMap, Map, delete-IsMap}
use vda_5050_lib_js.Mqtt.AgvIdMap.{AgvIdMap, delete, get}
use vda_5050_lib_js.Mqtt.AgvIdMap.Laws.{get-set_self}
use vda_5050_lib_js.Mqtt.AgvIdMap.Deleted.{get-delete_self}
use vda_5050_lib_js.Master.Controller.{AgvOrders}
use vda_5050_lib_js.Master.Queries.{is_empty}
use vda_5050_lib_js.Master.Caches.{cache_in, drop_cache, put_orders, without_update}
use vda_5050_lib_js.Master.Caches.Found.{
  IsSound, IsSoundMap, Orders, OtherKey, cache_in_lem, entry, found_in, last_in, updates_in,
}
use vda_5050_lib_js.Master.Caches.Emptied.{
  put-IsSoundMap, put_ne, put_self, without-IsSound, without_empty, without_full, without_ne,
  without_self,
}

-- The three ways of `drop_cache`.
drop_no_agv :
    (a : AgvId) (i : String) (u : ℕ) (m : Orders) → AgvIdMap.get a m ≡ none → drop_cache a i u m ≡ m
unfolding drop_cache
drop_no_agv a i u m e = rw (e, drop_cache) refl

drop_no_order :
    (a : AgvId) (i : String) (u : ℕ) (o : AgvOrders) (m : Orders)
    → AgvIdMap.get a m ≡ some o
    → Map.get i o.order_ids ≡ none
    → drop_cache a i u m ≡ m
unfolding drop_cache
drop_no_order a i u o m e f = rw (e, drop_cache) (rw f refl)

drop_order :
    (a : AgvId) (i : String) (u : ℕ) (o : AgvOrders) (us : Map ℕ ℕ) (m : Orders)
    → AgvIdMap.get a m ≡ some o
    → Map.get i o.order_ids ≡ some us
    → drop_cache a i u m ≡ put_orders a (without_update i (Map.delete u us) o) m
unfolding drop_cache
drop_order a i u o us m e f = rw (e, drop_cache) (rw f refl)

-- Nothing is found at the keys any more, what was found elsewhere is found as before, the last
-- cache of an AGV is the same or the AGV is forgotten, and the maps stay sound.
pub record IsDropped (a : AgvId) (i : String) (u : ℕ) (m m' : Orders) : Type 0 where
  pub gone : entry m' a i u ≡ none
  pub others :
      (b : AgvId) (j : String) (v : ℕ) → OtherKey a i u b j v → entry m' b j v ≡ entry m b j v
  pub last :
      (b : AgvId)
      → (last_in (AgvIdMap.get b m') ≡ last_in (AgvIdMap.get b m)) ⊎ (AgvIdMap.get b m' ≡ none)
  pub sound : IsSoundMap m'

nothing-IsDropped :
    (a : AgvId) (i : String) (u : ℕ) (m : Orders)
    → entry m a i u ≡ none
    → IsSoundMap m
    → IsDropped a i u m m
nothing-IsDropped a i u m e h = record {
  gone = e;
  others = λ b j v d. refl;
  last = λ b. inl refl;
  sound = h;
}

without-last_cache :
    (i : String) (us : Map ℕ ℕ) (o : AgvOrders) → (without_update i us o).last_cache ≡ o.last_cache
without-last_cache i us o = elim (Bool-cases (is_empty us)) [
  | inl e ↦ ap (λ x. AgvOrders.last_cache x) (without_empty i us o e)
  | inr e ↦ ap (λ x. AgvOrders.last_cache x) (without_full i us o e)
]

module _ (a : AgvId) (i : String) (u : ℕ) (o : AgvOrders) (us : Map ℕ ℕ) (m : Orders)
    (at_agv : AgvIdMap.get a m ≡ some o) (at_order : Map.get i o.order_ids ≡ some us)
    (h : IsSoundMap m) where
  IsSound-orders : IsSound o
  IsSound-orders = h.1 a o at_agv

  sound_updates : IsMap us
  sound_updates = All-get IsMap i us o.order_ids IsSound-orders.1 at_order

  rest_orders : AgvOrders
  rest_orders = without_update i (Map.delete u us) o

  put-last :
      (b : AgvId)
      → (last_in (AgvIdMap.get b (put_orders a rest_orders m)) ≡ last_in (AgvIdMap.get b m))
        ⊎ (AgvIdMap.get b (put_orders a rest_orders m) ≡ none)
  unfolding rest_orders
  put-last b = elim (Bool-cases (a == b)) [
    | inr other ↦ inl (ap last_in (put_ne a rest_orders b m h (ne_of_== a b other)))
    | inl same ↦ rw⁻¹ (eq_of_== a b same) (elim (Bool-cases (is_empty rest_orders.order_ids)) [
      | inl e ↦ inr (ap (AgvIdMap.get a) (rw e refl) ∙ get-delete_self a m h.0)
      | inr e ↦ inl (
          ap (λ x. last_in (AgvIdMap.get a x)) (rw e refl)
          ∙ ap last_in (get-set_self a rest_orders m)
          ∙ without-last_cache i (Map.delete u us) o
          ∙ sym (ap last_in at_agv))
    ])
  ]

  put-others :
      (b : AgvId) (j : String) (v : ℕ)
      → OtherKey a i u b j v
      → entry (put_orders a rest_orders m) b j v ≡ entry m b j v
  unfolding rest_orders
  put-others b j v d = elim d [
    | inl other ↦ ap (λ x. found_in x j v) (put_ne a rest_orders b m h other)
    | inr (same, ids) ↦
        ap (λ x. entry (put_orders a rest_orders m) x j v) (sym same)
        ∙ put_self a rest_orders j v m h
        ∙ elim ids [
          | inl other ↦ without_ne i (Map.delete u us) j v o other
          | inr (same_id, other) ↦
              ap (λ x. cache_in rest_orders x v) (sym same_id)
              ∙ without_self i (Map.delete u us) v o IsSound-orders
              ∙ Map.get-delete_ne u v us other
              ∙ ap (λ x. updates_in x v) (sym at_order)
              ∙ sym (cache_in_lem o i v)
              ∙ ap (λ x. cache_in o x v) same_id
        ]
        ∙ sym (ap (λ x. found_in x j v) at_agv)
        ∙ ap (λ x. entry m x j v) same
  ]

  order-IsDropped : IsDropped a i u m (put_orders a rest_orders m)
  unfolding rest_orders
  order-IsDropped = record {
    gone =
        put_self a rest_orders i u m h
        ∙ without_self i (Map.delete u us) u o IsSound-orders
        ∙ Map.get-delete_self u us sound_updates;
    others = put-others;
    last = put-last;
    sound =
        put-IsSoundMap a rest_orders m
          (without-IsSound i (Map.delete u us) o (Map.delete-IsMap u us sound_updates)
            IsSound-orders)
          h;
  }

pub drop-IsDropped :
    (a : AgvId) (i : String) (u : ℕ) (m : Orders)
    → IsSoundMap m
    → IsDropped a i u m (drop_cache a i u m)
unfolding rest_orders
drop-IsDropped a i u m h = elim (Option-cases (AgvIdMap.get a m)) [
  | inl e ↦ rw (drop_no_agv a i u m e) (nothing-IsDropped a i u m (ap (λ x. found_in x i u) e) h)
  | inr (o, e) ↦ elim (Option-cases (Map.get i o.order_ids)) [
    | inl f ↦ rw (drop_no_order a i u o m e f) (
        nothing-IsDropped a i u m
          (ap (λ x. found_in x i u) e ∙ cache_in_lem o i u ∙ ap (λ x. updates_in x u) f) h)
    | inr (us, f) ↦ rw (drop_order a i u o us m e f) (order-IsDropped a i u o us m e f h)
  ]
]
