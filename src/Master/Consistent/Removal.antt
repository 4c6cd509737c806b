-- ===== src/Master/Consistent/Removal.antt =====
-- Entering and removing the cache of an order, and calling its handler for completion, keep the
-- invariant.
use vda_5050_lib_js.Common.{
  Bool, Bool-cases, ap, arith, eq_Bool, eq_Option, eq_String, eq_of_==, eq_ℕ, false, inl, inr, none,
  refl, sym, true, ℕ, ◌<◌, ◌==◌, ◌∙◌, ◌≡◌, ◌⊎◌,
}
use vda_5050_lib_js.Vda.{State, eq_AgvId}
use vda_5050_lib_js.Master.Controller.{MasterController, OrderObject, change, emit, order_processed}
use vda_5050_lib_js.Master.Caches.{drop_cache, remove_order_state_cache}
use vda_5050_lib_js.Master.Caches.Found.{Orders, entry, key_cases}
use vda_5050_lib_js.Master.Caches.Dropped.{IsDropped, drop-IsDropped}
use vda_5050_lib_js.Master.Orders.{set_invoked}
use vda_5050_lib_js.Master.Consistent.{IsConsistent, bit, completions}

module _ (c : MasterController) (v : IsConsistent c) where
  module _ (k : ℕ) (forget : Bool) where
    abbrev pub removed : MasterController
    removed = remove_order_state_cache k forget c

    abbrev orders_left : Orders
    orders_left =
        drop_cache (c.caches k).agv_id (c.caches k).order.order_id
          (c.caches k).order.order_update_id c.current_orders

    pub removed-IsDropped :
        IsDropped
          (c.caches k).agv_id
          (c.caches k).order.order_id
          (c.caches k).order.order_update_id
          c.current_orders
          (remove_order_state_cache k forget c).current_orders
    unfolding remove_order_state_cache
    removed-IsDropped =
        drop-IsDropped (c.caches k).agv_id (c.caches k).order.order_id
          (c.caches k).order.order_update_id c.current_orders v.sound

    -- A cache after the removal: only the reference to the last one may be gone.
    pub forgotten :
        (i : ℕ)
        → ((removed.caches i).agv_id ≡ (c.caches i).agv_id)
          × ((removed.caches i).order ≡ (c.caches i).order)
          × ((removed.caches i).is_order_processed_handler_invoked
              ≡ (c.caches i).is_order_processed_handler_invoked)
          × (((removed.caches i).last_cache ≡ (c.caches i).last_cache)
              ⊎ ((removed.caches i).last_cache ≡ none))
    unfolding remove_order_state_cache
    forgotten i = elim (Bool-cases (i == k)) [
      | inr e ↦ rw e (refl, refl, refl, inl refl)
      | inl e ↦ rw e (
          rw (eq_of_== i k e) (elim (Bool-cases forget) [
            | inl f ↦ rw f (refl, refl, refl, inr refl)
            | inr f ↦ rw f (refl, refl, refl, inl refl)
          ]))
    ]

    pub remove-IsConsistent : IsConsistent (remove_order_state_cache k forget c)
    unfolding remove_order_state_cache
    remove-IsConsistent = record {
      sound = removed-IsDropped.sound;
      held = λ a i u j e.
          elim (key_cases (c.caches k).agv_id (c.caches k).order.order_id
            (c.caches k).order.order_update_id a i u) [
              | inl (p, q, r) ↦
                  let gone : entry orders_left a i u ≡ none =
                    rw⁻¹ (p, q, r) removed-IsDropped.gone in
                  absurd (ground arith)
              | inr other ↦
                  let (below, (agv, id, update)) =
                    v.held a i u j (sym (removed-IsDropped.others a i u other) ∙ e) in
                  let (same_agv, same_order, _, _) = forgotten j in
                  (
                    below,
                    (
                      same_agv ∙ agv,
                      ap (λ o. OrderObject.order_id o) same_order ∙ id,
                      ap (λ o. OrderObject.order_update_id o) same_order ∙ update,
                    ),
                  )
            ];
      newest = λ a j e. elim (removed-IsDropped.last a) [
        | inl same ↦ v.newest a j (sym same ∙ e)
        | inr gone ↦ absurd (ground arith)
      ];
      older = λ i j below e.
          let (_, _, _, last) = forgotten i in
          elim last [
            | inl same ↦ v.older i j below (sym same ∙ e)
            | inr gone ↦ absurd (ground arith)
          ];
      once = λ i below.
          let (_, _, same_flag, _) = forgotten i in v.once i below ∙ sym (ap bit same_flag);
      unheard = v.unheard;
    }

  -- The handler is told of the completion, and the flag is set.
  module _ (k : ℕ) (below : k < c.next_cache)
      (first : (c.caches k).is_order_processed_handler_invoked ≡ false)
      (by_cancelation active : Bool) (state : State) where
    abbrev told : MasterController
    told = emit (order_processed k none by_cancelation active state) (change k set_invoked c)

    kept_otherwise :
        (i : ℕ)
        → ((told.caches i).agv_id ≡ (c.caches i).agv_id)
          × ((told.caches i).order ≡ (c.caches i).order)
          × ((told.caches i).last_cache ≡ (c.caches i).last_cache)
    kept_otherwise i = elim (Bool-cases (i == k)) [
      | inr e ↦ rw e (refl, refl, refl)
      | inl e ↦ rw e (rw (eq_of_== i k e) (refl, refl, refl))
    ]

    told_once :
        (i : ℕ)
        → i < c.next_cache
        → completions i told.events ≡ bit (told.caches i).is_order_processed_handler_invoked
    told_once i h = elim (Bool-cases (k == i)) [
      | inl e ↦
          let same : k ≡ i = eq_of_== k i e in
          let e' : (i == k) ≡ true = ground arith in
          rw (e, e')
            (let before : completions i c.events ≡ 0 =
                v.once i h
                ∙ ap (λ j. bit (c.caches j).is_order_processed_handler_invoked) (sym same)
                ∙ ap bit first in
              omega arith)
      | inr e ↦
          let e' : (i == k) ≡ false = ground arith in
          rw (e, e') (let before = v.once i h in omega arith)
    ]

    pub told-IsConsistent :
        IsConsistent
          (emit (order_processed k none by_cancelation active state) (change k set_invoked c))
    told-IsConsistent = record {
      sound = v.sound;
      held = λ a i u j e.
          let (h, (agv, id, update)) = v.held a i u j e in
          let (same_agv, same_order, _) = kept_otherwise j in
          (
            h,
            (
              same_agv ∙ agv,
              ap (λ o. OrderObject.order_id o) same_order ∙ id,
              ap (λ o. OrderObject.order_update_id o) same_order ∙ update,
            ),
          );
      newest = v.newest;
      older =
          λ i j h e. let (_, _, same_last) = kept_otherwise i in v.older i j h (sym same_last ∙ e);
      once = told_once;
      unheard = λ i above.
          let e : (k == i) ≡ false = ground arith in
          rw e (let before = v.unheard i above in omega arith);
    }
