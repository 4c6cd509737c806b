-- ===== src/Agv/Steps/Same.antt =====
-- The functions of the contexts, the `update…` methods and publications leave the current order.
-- The call leaves this current order, if it comes to an end.
use vda_5050_lib_js.Common.{
  Bool, Bool-cases, List, Option, Option-cases, [], arith, false, inl, inr, length, none, refl,
  some, true, ℕ, ◌&&◌, ◌∙◌, ◌≡◌,
}
use vda_5050_lib_js.Vda.{
  ActionState, Edge, Error, Json, Node, Order, PartialState, finished, is_finished,
}
use vda_5050_lib_js.Agv.Controller.{
  ActionContext, ActionStatusChangeInfo, Adapter, Controller, Outcome, TraverseEdgeContext, done,
  out_of_fuel, thrown, ◌>>=◌,
}
use vda_5050_lib_js.Agv.Updates.{
  ErrorMode, changed_errors, find_error_index, no_changes, report_errors, update_errors,
  update_factsheet, update_partial_state, update_state,
}
use vda_5050_lib_js.Agv.Status.{change_to, update_action_status}
use vda_5050_lib_js.Agv.Traversal.{process_node}
use vda_5050_lib_js.Agv.Callbacks.{
  context_update, driving_to_next_node, factsheet_published, is_stop_pause, resume, stopped,
  update_edge_traversed,
}
use vda_5050_lib_js.Agv.Callbacks.Cleanup.{
  cleanup_instant_action_states, count_publication, errors_left, report_remaining, state_published,
  states_left,
}
use vda_5050_lib_js.Agv.Status.Keeps.{Keeps, process_node-IsSteady}
use vda_5050_lib_js.Agv.Status.Fuel.{update_action_status-Keeps}
use vda_5050_lib_js.Agv.Steps.{Leaves}
use vda_5050_lib_js.Agv.Queries.{has_canceling_order}

abbrev pub Same : Option Order → Outcome → Type 0
Same r (done c) = c.current_order ≡ r
Same r (thrown c) = c.current_order ≡ r
Same r out_of_fuel = Unit

pub Keeps-Same : (n : ℕ) (r : Option Order) (o : Outcome) → Keeps n r o → Same r o
Keeps-Same n r (done c) h = h.1
Keeps-Same n r (thrown c) h = h.1
Keeps-Same n r out_of_fuel h = tt

pub Same-bind :
    (r : Option Order) (o : Outcome) (f : Controller → Outcome)
    → Same r o
    → ((c : Controller) → c.current_order ≡ r → Same r (f c))
    → Same r (o >>= f)
Same-bind r (done c) f h k = k c h
Same-bind r (thrown c) f h k = h
Same-bind r out_of_fuel f h k = tt

pub Same-at : (r r' : Option Order) (o : Outcome) → r ≡ r' → Same r o → Same r' o
Same-at r r' (done c) e h = h ∙ e
Same-at r r' (thrown c) e h = h ∙ e
Same-at r r' out_of_fuel e h = tt

pub Same-Leaves :
    (r : Option Order) (o : Outcome) (c' : Controller)
    → Same r o
    → Leaves o c'
    → c'.current_order ≡ r
Same-Leaves r (done c) c' h (inl e) = let same : c ≡ c' = cc in rw⁻¹ same h
Same-Leaves r (thrown c) c' h (inl e) = absurd (cc)
Same-Leaves r (done c) c' h (inr e) = absurd (cc)
Same-Leaves r (thrown c) c' h (inr e) = let same : c ≡ c' = cc in rw⁻¹ same h
Same-Leaves r out_of_fuel c' h (inl e) = absurd (cc)
Same-Leaves r out_of_fuel c' h (inr e) = absurd (cc)

process_node-Same :
    (node : Node) (edge : Option Edge) (c : Controller)
    → Same c.current_order (process_node node edge c)
process_node-Same node edge c =
    Keeps-Same (length c.current_instant_actions) c.current_order (process_node node edge c) (
      process_node-IsSteady node edge (length c.current_instant_actions) c.current_order c
        (omega arith, refl))

update_action_status-Same :
    (env : Adapter) (context : ActionContext) (change : ActionStatusChangeInfo) (c : Controller)
    → Same c.current_order (update_action_status env context change c)
update_action_status-Same env context change c =
    Keeps-Same (length c.current_instant_actions) c.current_order
      (update_action_status env context change c) (update_action_status-Keeps env context change c)

resume-Same : (c : Controller) → Same c.current_order (resume c)
unfolding resume
resume-Same c = elim (Option-cases c.current_paused_node) [
  | inl e ↦ rw (e, resume) refl
  | inr (node, e) ↦ elim (Bool-cases (has_canceling_order c)) [
    | inl h ↦ rw (e, resume) (simp h refl)
    | inr h ↦
        rw (e, resume)
          (simp h (process_node-Same node none (record c { current_paused_node = none })))
  ]
]

pub context_update-Same :
    (env : Adapter) (context : ActionContext) (change : ActionStatusChangeInfo) (c : Controller)
    → Same c.current_order (context_update env context change c)
unfolding context_update
context_update-Same env context change c =
    Same-bind c.current_order (update_action_status env context change c) _
      (update_action_status-Same env context change c)
      (λ u h. elim (Bool-cases (is_stop_pause context && is_finished change.action_status)) [
        | inl e ↦ simp e (Same-at u.current_order c.current_order (resume u) h (resume-Same u))
        | inr e ↦ simp e h
      ])

pub edge_traversed-Same :
    (context : TraverseEdgeContext) (c : Controller)
    → Same c.current_order (update_edge_traversed context c)
unfolding update_edge_traversed
edge_traversed-Same context c = elim (Bool-cases (has_canceling_order c)) [
  | inl e ↦ simp e refl
  | inr e ↦ elim (Option-cases context.end_node) [
    | inl o ↦ simp (e, o) refl
    | inr (node, o) ↦ simp (e, o) (process_node-Same node (some context.edge) c)
  ]
]

pub stopped-Same : (env : Adapter) (c : Controller) → Same c.current_order (stopped env c)
unfolding stopped update_state
stopped-Same env c = elim (Option-cases c.cancel_order_context) [
  | inl o ↦ rw (o, stopped) refl
  | inr (context, o) ↦
      rw (o, stopped)
        (update_action_status-Same env context (change_to finished) (
          update_state (record no_changes { node_states = some []; edge_states = some [] }) false
            (record c { cancel_order_context = none })))
]

pub factsheet-Same :
    (env : Adapter) (context : ActionContext) (c : Controller)
    → Same c.current_order (factsheet_published env context c)
unfolding factsheet_published
factsheet-Same env context c = update_action_status-Same env context _ c

report_errors-order :
    (o : Option (List Error)) (b : Bool) (c : Controller)
    → (report_errors o b c).current_order ≡ c.current_order
unfolding update_partial_state update_state
report_errors-order none b c = refl
report_errors-order (some es) true c = refl
report_errors-order (some es) false c = refl

pub update_errors-Same :
    (error : Error) (mode : ErrorMode) (report : Bool) (c : Controller)
    → Same c.current_order (update_errors error mode report c)
unfolding update_errors
update_errors-Same error mode report c =
    elim (Option-cases (find_error_index error c.current_state.errors)) [
      | inl o ↦ rw (o, update_errors) refl
      | inr (index, o) ↦
          rw (o, update_errors)
            (report_errors-order (changed_errors error mode index c.current_state.errors) report c)
    ]

pub update_partial_state-order :
    (p : PartialState) (report : Bool) (c : Controller)
    → (update_partial_state p report c).current_order ≡ c.current_order
unfolding update_partial_state update_state
update_partial_state-order p true c = refl
update_partial_state-order p false c = refl

pub update_factsheet-order :
    (factsheet : Option Json) (c : Controller)
    → (update_factsheet factsheet c).current_order ≡ c.current_order
unfolding update_factsheet
update_factsheet-order none c = refl
update_factsheet-order (some factsheet) c = refl

report_remaining-order :
    (errors : Option (List Error)) (states : Option (List ActionState)) (c : Controller)
    → (report_remaining errors states c).current_order ≡ c.current_order
unfolding update_state
report_remaining-order none none c = refl
report_remaining-order none (some states) c = refl
report_remaining-order (some errors) none c = refl
report_remaining-order (some errors) (some states) c = refl

pub state_published-order :
    (env : Adapter) (c : Controller) → (state_published env c).current_order ≡ c.current_order
unfolding state_published cleanup_instant_action_states count_publication
state_published-order env c =
    let sent = record c { current_state = record c.current_state { timestamp = none } } in
    report_remaining-order (errors_left env sent) (states_left env sent)
      (count_publication env sent)

pub driving-Same :
    (node : Node) (c : Controller) → Same c.current_order (driving_to_next_node node c)
unfolding driving_to_next_node update_state
driving-Same node c = refl
