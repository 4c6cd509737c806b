-- ===== src/Master/Consistent/Dispatched.antt =====
-- The dispatch of a state to the orders keeps the invariant, and comes to an end.
use vda_5050_lib_js.Common.{
  Bool, Bool-cases, List, Option, Option-cases, [], false, inl, inr, none, refl, some, sym, true, ℕ,
  ◌∙◌, ◌∷◌, ◌≡◌,
}
use vda_5050_lib_js.Vda.{AgvId, Error, State}
use vda_5050_lib_js.Master.Controller.{
  Environment, MasterController, NodeObject, Outcome, done, emit, order_processed, out_of_fuel,
  state_update, thrown,
}
use vda_5050_lib_js.Master.Queries.{
  Progress, is_order_canceling, is_order_processed, processed, processed_active, unprocessed,
}
use vda_5050_lib_js.Master.Caches.{get_order_state_cache, remove_order_state_cache}
use vda_5050_lib_js.Master.Stitching.{stitch_to_last}
use vda_5050_lib_js.Master.Orders.{
  conclude, conclude_active, conclude_as, dispatch_action_states, dispatch_order_state,
  is_finished_status, next_node, node_is_reached, order_is_processed, reach, report_update,
  trailing_edge_events,
}
use vda_5050_lib_js.Master.Dispatch.{
  dispatch_active_order, dispatch_rejection, dispatch_rejections, rejected_cache,
}
use vda_5050_lib_js.Master.Caches.Found.{get_order_state_cache_lem}
use vda_5050_lib_js.Master.Consistent.{
  Frame-IsConsistent, IsConsistent, Leaves, Leaves-bind, emit-Frame, emit_if-Frame,
}
use vda_5050_lib_js.Master.Consistent.Removal.{forgotten, remove-IsConsistent, told-IsConsistent}
use vda_5050_lib_js.Master.Consistent.Frames.{
  dispatch_action_states-Frame, node_is_reached-Frame, trailing_edge_events-Frame,
}
use vda_5050_lib_js.Master.Consistent.Stitched.{Frame-Holds, Holds, stitch_to_last-Holds}

module _ (k : ℕ) (state : State) where
  report_update-Holds : (c : MasterController) → Holds k c → Holds k (report_update k state c)
  report_update-Holds c = Frame-Holds k c (report_update k state c) (
      emit_if-Frame (c.caches k).event_handler.on_state_update (state_update k state) c (λ i. refl))

  abbrev invoked : MasterController → Bool
  invoked c = (c.caches k).is_order_processed_handler_invoked

  still_first :
      (c : MasterController)
      → IsConsistent c
      → invoked c ≡ false
      → invoked (remove_order_state_cache k true c) ≡ false
  still_first c v e = let (_, _, same_flag, _) = forgotten c v k true k in same_flag ∙ e

  order_is_processed-Holds :
      (is_active : Bool) (c : MasterController)
      → invoked c ≡ false
      → Holds k c
      → Holds k (order_is_processed k is_active state c)
  unfolding order_is_processed remove_order_state_cache
  order_is_processed-Holds true c first (v, below) = (
    told-IsConsistent c v k below first
        (is_order_canceling (c.caches k).agv_id state is_finished_status c) true state,
    below,
  )
  order_is_processed-Holds false c first (v, below) = (
    told-IsConsistent (remove_order_state_cache k true c) (remove-IsConsistent c v k true) k below
        (still_first c v first) (is_order_canceling (c.caches k).agv_id state is_finished_status c)
        false state,
    below,
  )

  conclude_active-Holds :
      (is_active : Bool) (c : MasterController)
      → Holds k c
      → Holds k (conclude_active is_active k state c)
  conclude_active-Holds is_active c h = elim (Bool-cases (invoked c)) [
    | inl again ↦ rw again (report_update-Holds c h)
    | inr first ↦ rw first (order_is_processed-Holds is_active c first h)
  ]

  conclude_as-Holds :
      (p : Progress) (c : MasterController) → Holds k c → Holds k (conclude_as p k state c)
  conclude_as-Holds unprocessed c h = report_update-Holds c h
  conclude_as-Holds processed c h = conclude_active-Holds false c h
  conclude_as-Holds processed_active c h = conclude_active-Holds true c h

  conclude-Holds : (c : MasterController) → Holds k c → Holds k (conclude k state c)
  unfolding conclude
  conclude-Holds c h = conclude_as-Holds (is_order_processed (c.caches k) state) c h

  reach-Holds :
      (env : Environment) (c : MasterController) (n : Option (Option NodeObject))
      → Holds k c
      → Leaves (Holds k) (reach env k state c n)
  reach-Holds env c none h = h
  reach-Holds env c (some none) h = conclude-Holds c h
  reach-Holds env c (some (some n)) h =
      conclude-Holds (node_is_reached env k n state c) (
        Frame-Holds k c (node_is_reached env k n state c) (node_is_reached-Frame k state env n c) h)

  pub dispatch_order_state-Holds :
      (env : Environment) (c : MasterController)
      → Holds k c
      → Leaves (Holds k) (dispatch_order_state env state k c)
  unfolding dispatch_order_state
  dispatch_order_state-Holds env c h =
      Leaves-bind (Holds k) (stitch_to_last k c) _ (stitch_to_last-Holds k c h) λ d hd.
        let acted = dispatch_action_states k state state.action_states d in
        let trailed = trailing_edge_events env k state acted in
        reach-Holds env trailed (next_node (trailed.caches k) state) (
          Frame-Holds k acted trailed (trailing_edge_events-Frame k state env acted)
            (Frame-Holds k d acted (dispatch_action_states-Frame k state state.action_states d) hd))

dispatch_rejection-IsConsistent :
    (a : AgvId) (state : State) (e : Error) (c : MasterController)
    → IsConsistent c
    → IsConsistent (dispatch_rejection a state e c)
unfolding dispatch_rejection
dispatch_rejection-IsConsistent a state e c v = elim (Option-cases (rejected_cache a e c)) [
  | inl f ↦ rw (f, dispatch_rejection) v
  | inr (k, f) ↦
      let removed = remove_order_state_cache k false c in
      rw (f, dispatch_rejection)
        (Frame-IsConsistent removed (emit (order_processed k (some e) false false state) removed)
          (emit-Frame (order_processed k (some e) false false state) removed (λ i. refl))
          (remove-IsConsistent c v k false))
]

pub dispatch_rejections-IsConsistent :
    (a : AgvId) (state : State) (es : List Error) (c : MasterController)
    → IsConsistent c
    → IsConsistent (dispatch_rejections a state es c)
unfolding dispatch_rejections
dispatch_rejections-IsConsistent a state [] c v = v
dispatch_rejections-IsConsistent a state (e ∷ es) c v =
    dispatch_rejections-IsConsistent a state es (dispatch_rejection a state e c)
      (dispatch_rejection-IsConsistent a state e c v)

pub Leaves-map :
    (P Q : MasterController → Type 0) (m : Outcome)
    → ((c : MasterController) → P c → Q c)
    → Leaves P m
    → Leaves Q m
Leaves-map P Q (done c) f h = f c h
Leaves-map P Q (thrown c) f h = f c h
Leaves-map P Q out_of_fuel f h = h

pub dispatch_active_order-IsConsistent :
    (env : Environment) (a : AgvId) (state : State) (c : MasterController)
    → IsConsistent c
    → Leaves IsConsistent (dispatch_active_order env a state c)
dispatch_active_order-IsConsistent env a state c v =
    elim (Option-cases (get_order_state_cache a state.order_id state.order_update_id c)) [
      | inl e ↦ rw (e, dispatch_active_order) v
      | inr (k, e) ↦
          let (below, _) =
            v.held a state.order_id state.order_update_id k
              (sym (get_order_state_cache_lem a state.order_id state.order_update_id c) ∙ e) in
          rw (e, dispatch_active_order)
            (Leaves-map (Holds k) IsConsistent (dispatch_order_state env state k c) (λ d h. h.0)
              (dispatch_order_state-Holds k state env c (v, below)))
    ]
