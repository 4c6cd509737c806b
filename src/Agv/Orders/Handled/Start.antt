-- ===== src/Agv/Orders/Handled/Start.antt =====
-- An order that replaces the current one, or is rejected there.
use vda_5050_lib_js.Agv.ErrorType
use vda_5050_lib_js.Common.{
  ==_of_eq, Bool-cases, List, Option, String, [], ap, arith, eq_Bool, eq_Option, eq_String,
  eq_of_==, eq_ℕ, false, inl, inr, none, refl, some, true, ◌&&◌, ◌==◌, ◌∙◌, ◌∷◌, ◌≡◌, ◌≢◌, ◌⊎◌,
}
use vda_5050_lib_js.Vda.{Node, Order, eq_AgvId}
use vda_5050_lib_js.Agv.Controller.{Adapter, Controller, done}
use vda_5050_lib_js.Agv.Traversal.Retains.{Retains, process_node-Retains}
use vda_5050_lib_js.Agv.Queries.{has_active_order, is_nonempty}
use vda_5050_lib_js.Agv.Updates.{update_state}
use vda_5050_lib_js.Agv.Faults.{refs_of}
use vda_5050_lib_js.Agv.Constraints.Route.{Starts}
use vda_5050_lib_js.Agv.Orders.{
  is_order_update_base_stitching, new_from, new_or_reject, reject, update_or_reject,
}
use vda_5050_lib_js.Agv.Orders.Accept.{accept_new, accept_update, process_first_node, start_order}
use vda_5050_lib_js.Agv.Orders.Refused.{IsExecutable, order_error-IsRejected}
use vda_5050_lib_js.Agv.Orders.Handled.{
  Declined, Handled, Handles, IsOther, IsUpdateOf, StartAt, StartNear, apart_update, begun,
  declined, far, retained, updated,
}

first_node-Retains :
    (order : Order) (n : Node) (nodes : List Node) (c : Controller)
    → c.current_order ≡ some order
    → Retains order (process_first_node (n ∷ nodes) c)
unfolding process_first_node
first_node-Retains order n nodes c h = process_node-Retains order n none c h

pub no_refs : {A : Type 0} (xs : List A) → is_nonempty xs ≡ false → xs ≡ []
no_refs [] h = refl
no_refs (x ∷ xs) h = absurd (cc)

some_refs : {A : Type 0} (xs : List A) → is_nonempty xs ≡ true → xs ≢ []
some_refs [] h = absurd (cc)
some_refs (x ∷ xs) h = λ e. cc

-- Whether the nodes start where the vehicle was last.
pub update_answers :
    (order : Order) (c : Controller) (nodes : List Node)
    → order.nodes ≡ nodes
    → Starts nodes order.edges
    → ((is_order_update_base_stitching c order ≡ some true) × StartAt nodes c.current_state)
      ⊎ ((is_order_update_base_stitching c order ≡ some false) × (¬ StartAt nodes c.current_state))
unfolding is_order_update_base_stitching
update_answers order c [] e w = absurd w
update_answers order c (n ∷ nodes) e w =
    let s = c.current_state in
    let id = n.node_id == s.last_node_id in
    let place = n.sequence_id == s.last_node_sequence_id in
    let answer : is_order_update_base_stitching c order ≡ some (id && place) = ground arith in
    elim (Bool-cases (id && place)) [
      | inl fits ↦ inl (
        answer ∙ ap some fits,
        (
          eq_of_== n.node_id s.last_node_id (ground arith),
          eq_of_== n.sequence_id s.last_node_sequence_id (ground arith),
        ),
      )
      | inr away ↦ inr (
        answer ∙ ap some away,
        λ (p, q).
            let one = ==_of_eq n.node_id s.last_node_id p in
            let two = ==_of_eq n.sequence_id s.last_node_sequence_id q in ground arith,
      )
    ]

module _ (env : Adapter) (order : Order) (c : Controller) (ok : IsExecutable env order c) where
  pub decline-Handles :
      (type text : String)
      → Declined env order c type
      → Handles env order c (done (reject order type text c))
  decline-Handles type text d =
      declined type _ ok d (order_error-IsRejected (refs_of order) type text [] c)

  start-Handles :
      (id : Option String) (nodes : List Node)
      → Starts nodes order.edges
      → ((c' : Controller) → c'.current_order ≡ some order → Handled env order c c')
      → Handles env order c (process_first_node nodes (start_order env order id c))
  unfolding start_order update_state
  start-Handles id [] w k = absurd w
  start-Handles id (n ∷ nodes) w k =
      retained env order order c (process_first_node (n ∷ nodes) (start_order env order id c))
        (first_node-Retains order n nodes (start_order env order id c) refl) k

  accept_new-Handles :
      has_active_order c ≡ false
      → IsOther order c
      → StartNear env order.nodes
      → Handles env order c (accept_new env order c)
  unfolding accept_new
  accept_new-Handles h other near =
      start-Handles (some order.order_id) order.nodes ok.formed
        (λ c' here. begun c' ok h other near here)

  accept_update-Handles :
      (current : Order)
      → has_active_order c ≡ false
      → IsUpdateOf order current c
      → StartAt order.nodes c.current_state
      → Handles env order c (accept_update env order c)
  unfolding accept_update
  accept_update-Handles current h u at =
      start-Handles none order.nodes ok.formed (λ c' here. updated current c' ok h u at here)

  from-Handles :
      (nodes : List Node)
      → Starts nodes order.edges
      → (StartNear env nodes → StartNear env order.nodes)
      → (StartNear env order.nodes → StartNear env nodes)
      → has_active_order c ≡ false
      → IsOther order c
      → Handles env order c (new_from env order nodes c)
  unfolding new_from
  from-Handles [] w to from h other = absurd w
  from-Handles (n ∷ nodes) w to from h other =
      let refs = env.is_node_within_deviation_range n in
      elim (Bool-cases (is_nonempty refs)) [
        | inl away ↦ simp away (
            declined ErrorType.order_no_route _ ok
              (far h other (λ near. some_refs refs away (from near)))
              (order_error-IsRejected (refs_of order) ErrorType.order_no_route _ _ c))
        | inr near ↦ simp near (accept_new-Handles h other (to (no_refs refs near)))
      ]

  pub new-Handles :
      has_active_order c ≡ false → IsOther order c → Handles env order c (new_or_reject env order c)
  unfolding new_or_reject
  new-Handles = from-Handles order.nodes ok.formed (λ near. near) (λ near. near)

  pub update-Handles :
      (current : Order)
      → has_active_order c ≡ false
      → IsUpdateOf order current c
      → Handles env order c (update_or_reject env order c)
  unfolding update_or_reject
  update-Handles current h u = elim (update_answers order c order.nodes refl ok.formed) [
    | inl (e, at) ↦ simp e (accept_update-Handles current h u at)
    | inr (e, away) ↦
        simp e (decline-Handles ErrorType.order_update _ (apart_update current h u away))
  ]
