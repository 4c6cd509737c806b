-- ===== src/Master/Caches/Emptied.antt =====
-- The maps of an order and of a vehicle without an entry: what `_removeOrderStateCache` of src/
-- controller/master-controller.ts leaves in them.
use vda_5050_lib_js.Common.Map
use vda_5050_lib_js.Mqtt.AgvIdMap
use vda_5050_lib_js.Common.{
  Bool-cases, String, [], ap, arith, eq_Bool, eq_Option, eq_String, eq_of_==, eq_ℕ, false, inl, inr,
  ne_of_==, none, refl, some, sym, true, ℕ, ◌==◌, ◌∙◌, ◌≡◌, ◌≢◌,
}
use vda_5050_lib_js.Vda.{AgvId, eq_AgvId}
use vda_5050_lib_js.Common.Map.{All-delete, All-set, IsMap, Map, delete-IsMap, set-IsMap}
use vda_5050_lib_js.Mqtt.AgvIdMap.{AgvIdMap, delete, get, set}
use vda_5050_lib_js.Mqtt.AgvIdMap.Laws.{get-set_ne, get-set_self}
use vda_5050_lib_js.Mqtt.AgvIdMap.Deleted.{get-delete_ne, get-delete_self}
use vda_5050_lib_js.Mqtt.AgvIdMap.Valid.{delete-IsValid}
use vda_5050_lib_js.Master.Controller.{AgvOrders}
use vda_5050_lib_js.Master.Queries.{is_empty, is_empty-eq}
use vda_5050_lib_js.Master.Caches.{cache_in, put_orders, without_update}
use vda_5050_lib_js.Master.Caches.Found.{
  IsSound, IsSoundMap, Orders, cache_in_lem, entry, found_in, set-IsSoundMap, updates_in,
}

get_of_empty : (v : ℕ) (us : Map ℕ ℕ) → us ≡ [] → Map.get v us ≡ none
unfolding Map.get
get_of_empty v us e = rw e refl

pub without_empty :
    (i : String) (us : Map ℕ ℕ) (o : AgvOrders)
    → is_empty us ≡ true
    → without_update i us o ≡ record o { order_ids = Map.delete i o.order_ids }
without_empty i us o e = rw e refl

pub without_full :
    (i : String) (us : Map ℕ ℕ) (o : AgvOrders)
    → is_empty us ≡ false
    → without_update i us o ≡ record o { order_ids = Map.set i us o.order_ids }
without_full i us o e = rw e refl

pub without_self :
    (i : String) (us : Map ℕ ℕ) (v : ℕ) (o : AgvOrders)
    → IsSound o
    → cache_in (without_update i us o) i v ≡ Map.get v us
without_self i us v o (h, _) = elim (Bool-cases (is_empty us)) [
  | inl e ↦
      ap (λ x. cache_in x i v) (without_empty i us o e)
      ∙ cache_in_lem (record o { order_ids = Map.delete i o.order_ids }) i v
      ∙ ap (λ x. updates_in x v) (Map.get-delete_self i o.order_ids h)
      ∙ sym (get_of_empty v us (is_empty-eq us e))
  | inr e ↦
      ap (λ x. cache_in x i v) (without_full i us o e)
      ∙ cache_in_lem (record o { order_ids = Map.set i us o.order_ids }) i v
      ∙ ap (λ x. updates_in x v) (Map.get-set_self i us o.order_ids)
]

pub without_ne :
    (i : String) (us : Map ℕ ℕ) (j : String) (v : ℕ) (o : AgvOrders)
    → i ≢ j
    → cache_in (without_update i us o) j v ≡ cache_in o j v
without_ne i us j v o d = elim (Bool-cases (is_empty us)) [
  | inl e ↦
      ap (λ x. cache_in x j v) (without_empty i us o e)
      ∙ cache_in_lem (record o { order_ids = Map.delete i o.order_ids }) j v
      ∙ ap (λ x. updates_in x v) (Map.get-delete_ne i j o.order_ids d)
      ∙ sym (cache_in_lem o j v)
  | inr e ↦
      ap (λ x. cache_in x j v) (without_full i us o e)
      ∙ cache_in_lem (record o { order_ids = Map.set i us o.order_ids }) j v
      ∙ ap (λ x. updates_in x v) (Map.get-set_ne i j us o.order_ids d)
      ∙ sym (cache_in_lem o j v)
]

pub without-IsSound :
    (i : String) (us : Map ℕ ℕ) (o : AgvOrders)
    → IsMap us
    → IsSound o
    → IsSound (without_update i us o)
without-IsSound i us o hu (h, a) = elim (Bool-cases (is_empty us)) [
  | inl e ↦ rw e (Map.delete-IsMap i o.order_ids h, All-delete IsMap i o.order_ids a)
  | inr e ↦ rw e (Map.set-IsMap i us o.order_ids h, All-set IsMap i us o.order_ids hu a)
]

cache_in_of_empty : (o : AgvOrders) (j : String) (v : ℕ) → o.order_ids ≡ [] → cache_in o j v ≡ none
unfolding Map.get
cache_in_of_empty o j v e = cache_in_lem o j v ∙ ap (λ m. updates_in (Map.get j m) v) e

pub put_self :
    (a : AgvId) (o : AgvOrders) (j : String) (v : ℕ) (m : Orders)
    → IsSoundMap m
    → entry (put_orders a o m) a j v ≡ cache_in o j v
put_self a o j v m (h, _) = elim (Bool-cases (is_empty o.order_ids)) [
  | inl e ↦
      ap (λ x. entry x a j v) (rw e refl)
      ∙ ap (λ x. found_in x j v) (get-delete_self a m h)
      ∙ sym (cache_in_of_empty o j v (is_empty-eq o.order_ids e))
  | inr e ↦ ap (λ x. entry x a j v) (rw e refl) ∙ ap (λ x. found_in x j v) (get-set_self a o m)
]

pub put_ne :
    (a : AgvId) (o : AgvOrders) (b : AgvId) (m : Orders)
    → IsSoundMap m
    → a ≢ b
    → AgvIdMap.get b (put_orders a o m) ≡ AgvIdMap.get b m
put_ne a o b m (h, _) d = elim (Bool-cases (is_empty o.order_ids)) [
  | inl e ↦ ap (AgvIdMap.get b) (rw e refl) ∙ get-delete_ne a b m h d
  | inr e ↦ ap (AgvIdMap.get b) (rw e refl) ∙ get-set_ne a b o m d
]

delete-IsSoundMap : (a : AgvId) (m : Orders) → IsSoundMap m → IsSoundMap (AgvIdMap.delete a m)
delete-IsSoundMap a m (h, s) = (
  delete-IsValid a m h,
  λ b p e. elim (Bool-cases (a == b)) [
    | inl same ↦
        let gone : none ≡ some p =
          sym (get-delete_self a m h)
          ∙ ap (λ x. AgvIdMap.get x (AgvIdMap.delete a m)) (eq_of_== a b same)
          ∙ e in
        absurd (ground arith)
    | inr other ↦ s b p (sym (get-delete_ne a b m h (ne_of_== a b other)) ∙ e)
  ],
)

pub put-IsSoundMap :
    (a : AgvId) (o : AgvOrders) (m : Orders)
    → IsSound o
    → IsSoundMap m
    → IsSoundMap (put_orders a o m)
put-IsSoundMap a o m ho hm = elim (Bool-cases (is_empty o.order_ids)) [
  | inl e ↦ rw e (delete-IsSoundMap a m hm)
  | inr e ↦ rw e (set-IsSoundMap a o m ho hm)
]
