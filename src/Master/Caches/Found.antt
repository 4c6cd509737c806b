-- ===== src/Master/Caches/Found.antt =====
-- Where the cache of an order is found: the three levels of maps of src/controller/
-- master-controller.ts, and what is found after an order has been entered.
use mathlib.Core.Option
use vda_5050_lib_js.Common.Map
use vda_5050_lib_js.Mqtt.AgvIdMap
use vda_5050_lib_js.Common.{
  All, Bool-cases, Option, Option-cases, String, [], ap, eq_Bool, eq_Option, eq_String, eq_of_==,
  eq_ℕ, inl, inr, ne_of_==, none, refl, some, sym, ℕ, ◌==◌, ◌∙◌, ◌≡◌, ◌≢◌, ◌⊎◌,
}
use vda_5050_lib_js.Vda.{AgvId, eq_AgvId}
use vda_5050_lib_js.Common.Map.{All-get, All-set, IsMap, Map, set-IsMap}
use vda_5050_lib_js.Mqtt.AgvIdMap.{AgvIdMap, get, set}
use vda_5050_lib_js.Mqtt.AgvIdMap.Laws.{IsValid, get-set_ne, get-set_self}
use vda_5050_lib_js.Mqtt.AgvIdMap.Valid.{set-IsValid}
use vda_5050_lib_js.Master.Controller.{AgvOrders, MasterController}
use vda_5050_lib_js.Master.Caches.{
  cache_in, enter, get_last_assigned_order_state_cache, get_order_state_cache, no_orders,
}

abbrev pub Orders : Type 0
Orders = AgvIdMap AgvOrders

-- Each key stands once.
abbrev pub IsSound : AgvOrders → Type 0
IsSound o = IsMap o.order_ids × All (λ b. IsMap b.1) o.order_ids

abbrev pub IsSoundMap : Orders → Type 0
IsSoundMap m = IsValid m × ((a : AgvId) (o : AgvOrders) → AgvIdMap.get a m ≡ some o → IsSound o)

abbrev pub found_in : Option AgvOrders → String → ℕ → Option ℕ
found_in none i u = none
found_in (some o) i u = cache_in o i u

abbrev pub entry : Orders → AgvId → String → ℕ → Option ℕ
entry m a i u = found_in (AgvIdMap.get a m) i u

abbrev pub last_in : Option AgvOrders → Option ℕ
last_in none = none
last_in (some o) = o.last_cache

pub get_order_state_cache_lem :
    (a : AgvId) (i : String) (u : ℕ) (c : MasterController)
    → get_order_state_cache a i u c ≡ entry c.current_orders a i u
unfolding get_order_state_cache
get_order_state_cache_lem a i u c = elim (Option-cases (AgvIdMap.get a c.current_orders)) [
  | inl e ↦ rw (e, get_order_state_cache) refl
  | inr (o, e) ↦ rw (e, get_order_state_cache) refl
]

pub get_last_assigned_lem :
    (a : AgvId) (c : MasterController)
    → get_last_assigned_order_state_cache a c ≡ last_in (AgvIdMap.get a c.current_orders)
unfolding get_last_assigned_order_state_cache
get_last_assigned_lem a c = elim (Option-cases (AgvIdMap.get a c.current_orders)) [
  | inl e ↦ rw (e, get_last_assigned_order_state_cache) refl
  | inr (o, e) ↦ rw (e, get_last_assigned_order_state_cache) refl
]

-- The update ids of an order, if it has any.
abbrev pub updates_in : Option (Map ℕ ℕ) → ℕ → Option ℕ
updates_in none u = none
updates_in (some us) u = Map.get u us

pub cache_in_lem :
    (o : AgvOrders) (i : String) (u : ℕ) → cache_in o i u ≡ updates_in (Map.get i o.order_ids) u
cache_in_lem o i u = elim (Option-cases (Map.get i o.order_ids)) [
  | inl e ↦ rw (e, cache_in) refl
  | inr (us, e) ↦ rw (e, cache_in) refl
]

updates-get_or : (o : Option (Map ℕ ℕ)) (u : ℕ) → Map.get u (Option.get_or o []) ≡ updates_in o u
unfolding Map.get
updates-get_or none u = refl
updates-get_or (some us) u = refl

-- Another order id, another update id, or another AGV.
abbrev pub OtherIds : String → ℕ → String → ℕ → Type 0
OtherIds i u j v = (i ≢ j) ⊎ ((i ≡ j) × (u ≢ v))

abbrev pub OtherKey : AgvId → String → ℕ → AgvId → String → ℕ → Type 0
OtherKey a i u b j v = (a ≢ b) ⊎ ((a ≡ b) × OtherIds i u j v)

pub key_cases :
    (a : AgvId) (i : String) (u : ℕ) (b : AgvId) (j : String) (v : ℕ)
    → ((a ≡ b) × (i ≡ j) × (u ≡ v)) ⊎ OtherKey a i u b j v
key_cases a i u b j v = elim (Bool-cases (a == b)) [
  | inr e ↦ inr (inl (ne_of_== a b e))
  | inl e ↦ elim (Bool-cases (i == j)) [
    | inr f ↦ inr (inr (eq_of_== a b e, inl (ne_of_== i j f)))
    | inl f ↦ elim (Bool-cases (u == v)) [
      | inr g ↦ inr (inr (eq_of_== a b e, inr (eq_of_== i j f, ne_of_== u v g)))
      | inl g ↦ inl (eq_of_== a b e, eq_of_== i j f, eq_of_== u v g)
    ]
  ]
]

enter_self : (i : String) (u k : ℕ) (o : AgvOrders) → cache_in (enter i u k o) i u ≡ some k
enter_self i u k o =
    let us = Option.get_or (Map.get i o.order_ids) [] in
    cache_in_lem (enter i u k o) i u
    ∙ ap (λ x. updates_in x u) (Map.get-set_self i (Map.set u k us) o.order_ids)
    ∙ Map.get-set_self u k us

enter_ne :
    (i : String) (u k : ℕ) (j : String) (v : ℕ) (o : AgvOrders)
    → OtherIds i u j v
    → cache_in (enter i u k o) j v ≡ cache_in o j v
enter_ne i u k j v o h =
    let us = Option.get_or (Map.get i o.order_ids) [] in
    cache_in_lem (enter i u k o) j v
    ∙ elim h [
      | inl d ↦ ap (λ x. updates_in x v) (Map.get-set_ne i j (Map.set u k us) o.order_ids d)
      | inr (same, d) ↦
          ap (λ x. updates_in (Map.get x (enter i u k o).order_ids) v) (sym same)
          ∙ ap (λ x. updates_in x v) (Map.get-set_self i (Map.set u k us) o.order_ids)
          ∙ Map.get-set_ne u v k us d
          ∙ updates-get_or (Map.get i o.order_ids) v
          ∙ ap (λ x. updates_in (Map.get x o.order_ids) v) same
    ]
    ∙ sym (cache_in_lem o j v)

orders_of : Option AgvOrders → AgvOrders
orders_of o = Option.get_or o no_orders

cache_in-orders_of :
    (o : Option AgvOrders) (i : String) (u : ℕ) → cache_in (orders_of o) i u ≡ found_in o i u
unfolding orders_of Map.get
cache_in-orders_of none i u = refl
cache_in-orders_of (some o) i u = refl

-- The AGV's maps with a cache entered.
abbrev pub entered : AgvId → String → ℕ → ℕ → Orders → Orders
entered a i u k m = AgvIdMap.set a (enter i u k (Option.get_or (AgvIdMap.get a m) no_orders)) m

pub entry-entered_self :
    (a : AgvId) (i : String) (u k : ℕ) (m : Orders) → entry (entered a i u k m) a i u ≡ some k
entry-entered_self a i u k m =
    let o = Option.get_or (AgvIdMap.get a m) no_orders in
    ap (λ x. found_in x i u) (get-set_self a (enter i u k o) m) ∙ enter_self i u k o

pub entry-entered_ne :
    (a : AgvId) (i : String) (u k : ℕ) (b : AgvId) (j : String) (v : ℕ) (m : Orders)
    → OtherKey a i u b j v
    → entry (entered a i u k m) b j v ≡ entry m b j v
unfolding orders_of
entry-entered_ne a i u k b j v m h =
    let o = Option.get_or (AgvIdMap.get a m) no_orders in
    elim h [
      | inl d ↦ ap (λ x. found_in x j v) (get-set_ne a b (enter i u k o) m d)
      | inr (same, d) ↦
          ap (λ x. entry (entered a i u k m) x j v) (sym same)
          ∙ ap (λ x. found_in x j v) (get-set_self a (enter i u k o) m)
          ∙ enter_ne i u k j v o d
          ∙ cache_in-orders_of (AgvIdMap.get a m) j v
          ∙ ap (λ x. entry m x j v) same
    ]

enter-IsSound : (i : String) (u k : ℕ) (o : AgvOrders) → IsSound o → IsSound (enter i u k o)
enter-IsSound i u k o (h, a) = elim (Option-cases (Map.get i o.order_ids)) [
  | inl e ↦ rw e (
    Map.set-IsMap i (Map.set u k []) o.order_ids h,
    All-set IsMap i (Map.set u k []) o.order_ids (Map.set-IsMap u k [] tt) a,
  )
  | inr (us, e) ↦ rw e (
    Map.set-IsMap i (Map.set u k us) o.order_ids h,
    All-set IsMap i (Map.set u k us) o.order_ids
        (Map.set-IsMap u k us (All-get IsMap i us o.order_ids a e)) a,
  )
]

orders_of-IsSound : (a : AgvId) (m : Orders) → IsSoundMap m → IsSound (orders_of (AgvIdMap.get a m))
unfolding orders_of
orders_of-IsSound a m (h, s) = elim (Option-cases (AgvIdMap.get a m)) [
  | inl e ↦ rw e (tt, tt)
  | inr (o, e) ↦ rw e (s a o e)
]

pub set-IsSoundMap :
    (a : AgvId) (o : AgvOrders) (m : Orders)
    → IsSound o
    → IsSoundMap m
    → IsSoundMap (AgvIdMap.set a o m)
set-IsSoundMap a o m ho (h, s) = (
  set-IsValid a o m h,
  λ b p e. elim (Bool-cases (a == b)) [
    | inl same ↦
        let here : some o ≡ some p =
          sym (get-set_self a o m)
          ∙ ap (λ x. AgvIdMap.get x (AgvIdMap.set a o m)) (eq_of_== a b same)
          ∙ e in
        let same_orders : o ≡ p = cc in rw⁻¹ same_orders ho
    | inr other ↦ s b p (sym (get-set_ne a b o m (ne_of_== a b other)) ∙ e)
  ],
)

pub entered-IsSoundMap :
    (a : AgvId) (i : String) (u k : ℕ) (m : Orders) → IsSoundMap m → IsSoundMap (entered a i u k m)
unfolding orders_of
entered-IsSoundMap a i u k m h =
    let o = Option.get_or (AgvIdMap.get a m) no_orders in
    set-IsSoundMap a (enter i u k o) m (enter-IsSound i u k o (orders_of-IsSound a m h)) h
