-- ===== src/Master/Consistent/Frames.antt =====
-- The events of edges, nodes and order actions change nothing that the invariant reads.
use vda_5050_lib_js.Common.Map
use vda_5050_lib_js.Common.{
  Bool-cases, List, Option, Option-cases, [], any, eq_Bool, eq_Option, eq_String, eq_ℕ, false, inl,
  inr, is_some, refl, ℕ, ◌||◌, ◌∷◌,
}
use vda_5050_lib_js.Vda.{ActionState, State, eq_AgvId}
use vda_5050_lib_js.Common.Map.{Map}
use vda_5050_lib_js.Master.Controller.{
  EdgeObject, EdgeStateChanges, EdgeStatus, Environment, MappedAction, MasterController, NodeObject,
  action_state_changed, change, edge_traversed, edge_traversing, emit_if, node_traversed,
}
use vda_5050_lib_js.Master.Queries.{
  are_all_blocking_actions_ended, get_edge_end_node, get_edge_start_node, get_next_edge,
  get_next_released_edge, is_order_canceling,
}
use vda_5050_lib_js.Master.Edges.{
  all_of, count_invocation, edge_events, edge_is_traversed, edge_status, has_changes,
  is_state_of_edge, keep_status, leave_edge, new_deltas, overwritten, process_edge_events,
  report_changes, running_or_finished, same_edge, update_edge_state_changes,
}
use vda_5050_lib_js.Master.Orders.{
  dispatch_action_state, dispatch_action_states, end_node, failure, keep_action_state,
  node_is_reached, reach_node, same_status, trailing_edge_events,
}
use vda_5050_lib_js.Master.Consistent.{Frame, Frame-refl, Frame-trans, change-Frame, emit_if-Frame}

module _ (k : ℕ) (state : State) where
  report_changes-Frame :
      (edge : EdgeObject) (start end : Option NodeObject) (changes : EdgeStateChanges)
      (c : MasterController)
      → Frame c (report_changes k edge start end changes state c)
  unfolding report_changes
  report_changes-Frame edge start end changes c =
      let counted = change k count_invocation c in
      Frame-trans c counted (report_changes k edge start end changes state c)
        (change-Frame k count_invocation c (refl, refl, refl, refl))
        (emit_if-Frame (c.caches k).event_handler.on_edge_traversing
          (edge_traversing k edge start end changes (counted.caches k).edge_state_change_invocations
            state)
          counted (λ i. refl))

  kept_and_reported :
      (edge : EdgeObject) (start end : Option NodeObject) (changes : EdgeStateChanges)
      (s : EdgeStatus) (c : MasterController)
      → Frame c (report_changes k edge start end changes state (change k (keep_status s) c))
  kept_and_reported edge start end changes s c =
      let kept = change k (keep_status s) c in
      Frame-trans c kept (report_changes k edge start end changes state kept)
        (change-Frame k (keep_status s) c (refl, refl, refl, refl))
        (report_changes-Frame edge start end changes kept)

  update_edge_state_changes-Frame :
      (env : Environment) (edge : EdgeObject) (start end : Option NodeObject) (c : MasterController)
      → Frame c (update_edge_state_changes env k edge start end state c)
  unfolding update_edge_state_changes
  update_edge_state_changes-Frame env edge start end c =
      elim (Option-cases (c.caches k).last_edge_state_changes) [
        | inl e ↦
            rw (e, update_edge_state_changes)
              (kept_and_reported edge start end (all_of (edge_status state)) (edge_status state) c)
        | inr (old, e) ↦
            rw (e, update_edge_state_changes)
              (elim (Bool-cases (has_changes (new_deltas env old (edge_status state)))) [
                | inl changed ↦ rw changed (
                    kept_and_reported edge start end (new_deltas env old (edge_status state))
                      (overwritten (new_deltas env old (edge_status state)) old) c)
                | inr same ↦ rw same (Frame-refl c)
              ])
      ]

  edge_is_traversed-Frame :
      (env : Environment) (edge : EdgeObject) (start end : Option NodeObject) (c : MasterController)
      → Frame c (edge_is_traversed env k edge start end state c)
  unfolding edge_is_traversed
  edge_is_traversed-Frame env edge start end c =
      let updated = update_edge_state_changes env k edge start end state c in
      let left = change k (leave_edge edge) updated in
      let result = edge_is_traversed env k edge start end state c in
      Frame-trans c updated result (update_edge_state_changes-Frame env edge start end c) (
        Frame-trans updated left result
          (change-Frame k (leave_edge edge) updated (refl, refl, refl, refl))
          (emit_if-Frame (c.caches k).event_handler.on_edge_traversed
            (edge_traversed k edge start end state) left (λ i. refl)))

  edge_events-Frame :
      (env : Environment) (node : NodeObject) (edge : EdgeObject) (c : MasterController)
      → Frame c (edge_events env k node edge state c)
  unfolding edge_events
  edge_events-Frame env node edge c =
      let update =
        update_edge_state_changes-Frame env edge
          (get_edge_start_node (c.caches k).combined_order edge)
          (get_edge_end_node (c.caches k).combined_order edge) c in
      let traversed =
        edge_is_traversed-Frame env edge (get_edge_start_node (c.caches k).combined_order edge)
          (get_edge_end_node (c.caches k).combined_order edge) c in
      elim (Bool-cases (any (is_state_of_edge edge) state.edge_states)) [
        | inl there ↦
            rw there
              (elim (Bool-cases (
                is_some (c.caches k).last_edge_state_changes
                || are_all_blocking_actions_ended c node state)) [
                  | inl ready ↦ rw ready update
                  | inr waits ↦ rw waits (Frame-refl c)
                ])
        | inr gone ↦ rw gone (elim (Bool-cases (same_edge (c.caches k).last_edge_processed edge)) [
          | inl again ↦ rw again (Frame-refl c)
          | inr first ↦ rw first traversed
        ])
      ]

  pub process_edge_events-Frame :
      (env : Environment) (node : NodeObject) (c : MasterController)
      → Frame c (process_edge_events env k node state c)
  unfolding process_edge_events
  process_edge_events-Frame env node c =
      elim (Bool-cases (is_order_canceling (c.caches k).agv_id state running_or_finished c)) [
        | inl canceling ↦ rw canceling (Frame-refl c)
        | inr e ↦
            rw e (elim (Option-cases (get_next_released_edge (c.caches k).combined_order node)) [
              | inl f ↦ rw (f, process_edge_events) (Frame-refl c)
              | inr (edge, f) ↦ rw (f, process_edge_events) (edge_events-Frame env node edge c)
            ])
      ]

  abbrev reported : ActionState → MappedAction → MasterController → MasterController
  reported s mapped c =
      emit_if (c.caches k).event_handler.on_action_state_changed
        (action_state_changed k s (failure false s state) mapped.action mapped.target state)
        (change k (keep_action_state s.action_id s) c)

  action_reported :
      (s : ActionState) (mapped : MappedAction) (c : MasterController)
      → Frame c (reported s mapped c)
  action_reported s mapped c =
      let kept = change k (keep_action_state s.action_id s) c in
      Frame-trans c kept (reported s mapped c)
        (change-Frame k (keep_action_state s.action_id s) c (refl, refl, refl, refl))
        (emit_if-Frame (c.caches k).event_handler.on_action_state_changed
          (action_state_changed k s (failure false s state) mapped.action mapped.target state) kept
          (λ i. refl))

  dispatch_action_state-Frame :
      (s : ActionState) (c : MasterController) → Frame c (dispatch_action_state k state s c)
  unfolding dispatch_action_state
  dispatch_action_state-Frame s c =
      elim (Option-cases (Map.get s.action_id (c.caches k).mapped_actions)) [
        | inl e ↦ rw (e, dispatch_action_state) (Frame-refl c)
        | inr (mapped, e) ↦
            rw (e, dispatch_action_state)
              (elim (Bool-cases (
                same_status (Map.get s.action_id (c.caches k).last_action_states)
                  s.action_status)) [
                    | inl same ↦ rw same (Frame-refl c)
                    | inr new ↦ rw new (action_reported s mapped c)
                  ])
      ]

  pub dispatch_action_states-Frame :
      (ss : List ActionState) (c : MasterController) → Frame c (dispatch_action_states k state ss c)
  unfolding dispatch_action_states
  dispatch_action_states-Frame [] c = Frame-refl c
  dispatch_action_states-Frame (s ∷ ss) c =
      Frame-trans c (dispatch_action_state k state s c) (dispatch_action_states k state (s ∷ ss) c)
        (dispatch_action_state-Frame s c)
        (dispatch_action_states-Frame ss (dispatch_action_state k state s c))

  pub node_is_reached-Frame :
      (env : Environment) (n : NodeObject) (c : MasterController)
      → Frame c (node_is_reached env k n state c)
  unfolding node_is_reached
  node_is_reached-Frame env n c =
      let reached = change k (reach_node n) c in
      let order = (c.caches k).combined_order in
      let event =
        node_traversed k n (get_next_edge order n) (end_node order (get_next_edge order n)) state in
      let told = emit_if (c.caches k).event_handler.on_node_traversed event reached in
      let result = process_edge_events env k n state told in
      Frame-trans c reached result (change-Frame k (reach_node n) c (refl, refl, refl, refl)) (
        Frame-trans reached told result
          (emit_if-Frame (c.caches k).event_handler.on_node_traversed event reached (λ i. refl))
          (process_edge_events-Frame env n told))

  pub trailing_edge_events-Frame :
      (env : Environment) (c : MasterController) → Frame c (trailing_edge_events env k state c)
  trailing_edge_events-Frame env c = elim (Option-cases (c.caches k).last_node_traversed) [
    | inl e ↦ rw (e, trailing_edge_events) (Frame-refl c)
    | inr (n, e) ↦ rw (e, trailing_edge_events) (process_edge_events-Frame env n c)
  ]
