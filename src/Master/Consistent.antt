-- ===== src/Master/Consistent.antt =====
-- What holds of the caches of a master controller between two calls, and which changes keep it:
-- src/controller/master-controller.ts.
use vda_5050_lib_js.Mqtt.AgvIdMap
pub mod Removal
pub mod Assigned
pub mod Frames
pub mod Stitched
pub mod Dispatched
pub mod Instants
pub mod Steps
use vda_5050_lib_js.Common.{
  Bool, Bool-cases, List, String, [], ap, arith, eq_Bool, eq_Option, eq_String, eq_of_==, eq_ℕ,
  false, inl, inr, none, refl, some, sym, true, ℕ, ◌+◌, ◌<◌, ◌==◌, ◌∙◌, ◌∷◌, ◌≡◌, ◌≤◌,
}
use vda_5050_lib_js.Vda.{AgvId, eq_AgvId}
use vda_5050_lib_js.Mqtt.AgvIdMap.{AgvIdMap, get}
use vda_5050_lib_js.Master.Controller.{
  Event, MasterController, OrderObject, OrderStateCache, Outcome, change, done, emit, emit_if,
  order_processed, out_of_fuel, thrown, ◌>>=◌,
}
use vda_5050_lib_js.Master.Caches.Found.{IsSoundMap, entry, last_in}

abbrev pub bit : Bool → ℕ
bit true = 1
bit false = 0

-- How often the handler of a cache has been told that its order is processed, with no error.
abbrev pub completes : ℕ → Event → ℕ
completes k (order_processed j none by_cancelation active state) = bit (j == k)
completes k _ = 0

abbrev pub completions : ℕ → List Event → ℕ
completions k [] = 0
completions k (e ∷ es) = completes k e + completions k es

-- The cache is that of the order.
abbrev pub HoldsOrder : OrderStateCache → AgvId → String → ℕ → Type 0
HoldsOrder cache a i u =
    (cache.agv_id ≡ a) × (cache.order.order_id ≡ i) × (cache.order.order_update_id ≡ u)

-- Each cache is entered under the ids of its own order, refers to an older one as the last cache,
-- and has had its handler called for completion as often as its flag says, once at most.
pub record IsConsistent (c : MasterController) : Type 0 where
  pub sound : IsSoundMap c.current_orders
  pub held :
      (a : AgvId) (i : String) (u k : ℕ)
      → entry c.current_orders a i u ≡ some k
      → (k < c.next_cache) × HoldsOrder (c.caches k) a i u
  pub newest :
      (a : AgvId) (k : ℕ) → last_in (AgvIdMap.get a c.current_orders) ≡ some k → k < c.next_cache
  pub older : (k j : ℕ) → k < c.next_cache → (c.caches k).last_cache ≡ some j → j < k
  pub once :
      (k : ℕ)
      → k < c.next_cache
      → completions k c.events ≡ bit (c.caches k).is_order_processed_handler_invoked
  pub unheard : (k : ℕ) → c.next_cache ≤ k → completions k c.events ≡ 0

-- What the invariant reads of a cache.
abbrev pub Kept : OrderStateCache → OrderStateCache → Type 0
Kept x y =
    (y.agv_id ≡ x.agv_id)
    × (y.order ≡ x.order)
    × (y.last_cache ≡ x.last_cache)
    × (y.is_order_processed_handler_invoked ≡ x.is_order_processed_handler_invoked)

-- A change that the invariant does not see.
pub record Frame (c c' : MasterController) : Type 0 where
  pub orders : c'.current_orders ≡ c.current_orders
  pub next : c'.next_cache ≡ c.next_cache
  pub heard : (k : ℕ) → completions k c'.events ≡ completions k c.events
  pub kept : (k : ℕ) → Kept (c.caches k) (c'.caches k)

pub Frame-refl : (c : MasterController) → Frame c c
Frame-refl c = record {
  orders = refl;
  next = refl;
  heard = λ k. refl;
  kept = λ k. (refl, refl, refl, refl);
}

pub Frame-trans : (c d e : MasterController) → Frame c d → Frame d e → Frame c e
Frame-trans c d e f g = record {
  orders = g.orders ∙ f.orders;
  next = g.next ∙ f.next;
  heard = λ k. g.heard k ∙ f.heard k;
  kept = λ k.
      let (a, o, l, i) = f.kept k in
      let (a', o', l', i') = g.kept k in (a' ∙ a, o' ∙ o, l' ∙ l, i' ∙ i);
}

pub Frame-IsConsistent : (c c' : MasterController) → Frame c c' → IsConsistent c → IsConsistent c'
Frame-IsConsistent c c' f v = record {
  sound = rw f.orders v.sound;
  held = λ a i u k e.
      let (below, (agv, id, update)) =
        v.held a i u k (sym (ap (λ m. entry m a i u) f.orders) ∙ e) in
      let (same_agv, same_order, _, _) = f.kept k in
      (
        omega (arith, f.next),
        (
          same_agv ∙ agv,
          ap (λ o. OrderObject.order_id o) same_order ∙ id,
          ap (λ o. OrderObject.order_update_id o) same_order ∙ update,
        ),
      );
  newest = λ a k e.
      let below : k < c.next_cache =
        v.newest a k (sym (ap (λ m. last_in (AgvIdMap.get a m)) f.orders) ∙ e) in
      omega (arith, f.next);
  older = λ k j below e.
      let (_, _, same_last, _) = f.kept k in
      v.older k j (omega (arith, f.next)) (sym same_last ∙ e);
  once = λ k below.
      let (_, _, _, same_flag) = f.kept k in
      f.heard k ∙ v.once k (omega (arith, f.next)) ∙ sym (ap bit same_flag);
  unheard = λ k above. f.heard k ∙ v.unheard k (omega (arith, f.next));
}

pub change-Frame :
    (k : ℕ) (f : OrderStateCache → OrderStateCache) (c : MasterController)
    → Kept (c.caches k) (f (c.caches k))
    → Frame c (change k f c)
change-Frame k f c h = record {
  orders = refl;
  next = refl;
  heard = λ i. refl;
  kept = λ i. elim (Bool-cases (i == k)) [
    | inl e ↦ rw e (rw (eq_of_== i k e) h)
    | inr e ↦ rw e (refl, refl, refl, refl)
  ];
}

pub emit-Frame :
    (e : Event) (c : MasterController) → ((k : ℕ) → completes k e ≡ 0) → Frame c (emit e c)
emit-Frame e c h = record {
  orders = refl;
  next = refl;
  heard = λ k. omega (arith, h k);
  kept = λ k. (refl, refl, refl, refl);
}

pub emit_if-Frame :
    (b : Bool) (e : Event) (c : MasterController)
    → ((k : ℕ) → completes k e ≡ 0)
    → Frame c (emit_if b e c)
emit_if-Frame true e c h = emit-Frame e c h
emit_if-Frame false e c h = Frame-refl c

-- A property of the controller that a call leaves, which comes to an end.
abbrev pub Leaves : (MasterController → Type 0) → Outcome → Type 0
Leaves P (done c) = P c
Leaves P (thrown c) = P c
Leaves P out_of_fuel = ⊥

pub Leaves-bind :
    (P : MasterController → Type 0) (m : Outcome) (f : MasterController → Outcome)
    → Leaves P m
    → ((c : MasterController) → P c → Leaves P (f c))
    → Leaves P (m >>= f)
Leaves-bind P (done c) f h k = k c h
Leaves-bind P (thrown c) f h k = h
Leaves-bind P out_of_fuel f h k = h
