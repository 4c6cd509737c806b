-- ===== src/Agv/Steps/Instants.antt =====
-- Inbound instant actions leave the current order.
use vda_5050_lib_js.Common.{
  Bool, Bool-cases, List, Option, Option-cases, [], any, false, inl, inr, is_some, last?, none,
  refl, true, ◌++◌, ◌∙◌, ◌∷◌, ◌≡◌,
}
use vda_5050_lib_js.Vda.{Action, Order, is_hard}
use vda_5050_lib_js.Agv.Controller.{ActionContext, Adapter, Controller}
use vda_5050_lib_js.Agv.Updates.{update_state}
use vda_5050_lib_js.Agv.Status.{active_order_id, instant_context}
use vda_5050_lib_js.Agv.Status.Fuel.{fueled_chunk-Keeps}
use vda_5050_lib_js.Agv.Queries.{is_nonempty}
use vda_5050_lib_js.Agv.InstantActions.{
  Filtered, InstantActionsMessage, check_instant_action, conforming, cons_if, filter_executable,
  instant_action_refusal, kept, malformed, message_actions, process_instant_actions,
  report_instant_error, start_accepted, start_filtered, threw,
}
use vda_5050_lib_js.Agv.Steps.Same.{Keeps-Same, Same, Same-at}

abbrev SameFiltered : Option Order → Filtered → Type 0
SameFiltered r (kept actions c) = c.current_order ≡ r
SameFiltered r (threw c) = c.current_order ≡ r

cons_if-SameFiltered :
    (r : Option Order) (b : Bool) (a : Action) (f : Filtered)
    → SameFiltered r f
    → SameFiltered r (cons_if b a f)
cons_if-SameFiltered r false a f h = h
cons_if-SameFiltered r true a (kept actions c) h = h
cons_if-SameFiltered r true a (threw c) h = h

check-order :
    (env : Adapter) (context : ActionContext) (c : Controller)
    → (check_instant_action env context c).1.current_order ≡ c.current_order
unfolding check_instant_action report_instant_error update_state
check-order env context c =
    elim (Bool-cases (is_nonempty (instant_action_refusal env c context).1)) [
      | inl e ↦ simp e refl
      | inr e ↦ simp e refl
    ]

filter-SameFiltered :
    (env : Adapter) (r : Option Order) (actions : List Action) (c : Controller)
    → c.current_order ≡ r
    → SameFiltered r (filter_executable env actions c)
unfolding filter_executable
filter-SameFiltered env r [] c h = h
filter-SameFiltered env r (a ∷ actions) c h = elim (Option-cases (active_order_id c)) [
  | inl o ↦ rw (o, filter_executable) h
  | inr (id, o) ↦
      let (passes, checked) = check_instant_action env (instant_context a none id) c in
      rw (o, filter_executable)
        (cons_if-SameFiltered r passes a (filter_executable env actions checked) (
          filter-SameFiltered env r actions checked
            (check-order env (instant_context a none id) c ∙ h)))
]

start_accepted-Same :
    (env : Adapter) (after : Option Action) (b : Bool) (accepted : List Action) (c : Controller)
    → Same c.current_order (start_accepted env after b accepted c)
unfolding start_accepted
start_accepted-Same env after true accepted c = refl
start_accepted-Same env after false accepted c = Keeps-Same _ _ _ (
    fueled_chunk-Keeps env after (is_some after)
      (record c { current_instant_actions = c.current_instant_actions ++ accepted }))

start_filtered-Same :
    (env : Adapter) (r : Option Order) (before : Controller) (f : Filtered)
    → SameFiltered r f
    → Same r (start_filtered env before f)
start_filtered-Same env r before (threw c) h = h
start_filtered-Same env r before (kept accepted c) h =
    let after = last? before.current_instant_actions in
    let pending = any (λ a. is_hard a.blocking_type) before.current_instant_actions in
    Same-at c.current_order r (start_accepted env after pending accepted c) h
      (start_accepted-Same env after pending accepted c)

pub instant_actions-Same :
    (env : Adapter) (message : InstantActionsMessage) (c : Controller)
    → Same c.current_order (process_instant_actions env message c)
unfolding process_instant_actions report_instant_error update_state
instant_actions-Same env (malformed header_id message) c = refl
instant_actions-Same env (conforming actions instant_actions) c =
    elim (Option-cases (message_actions env actions instant_actions)) [
      | inl e ↦ simp e refl
      | inr (received, e) ↦ simp e (
          start_filtered-Same env c.current_order c (filter_executable env received c)
            (filter-SameFiltered env c.current_order received c refl))
    ]
