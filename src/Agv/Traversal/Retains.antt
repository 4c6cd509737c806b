-- ===== src/Agv/Traversal/Retains.antt =====
-- Moving over the current order returns, and leaves the order as it is.
use vda_5050_lib_js.Common.{
  Bool, Bool-cases, List, Option, Option-cases, [], ap, arith, drop, eq_Option, eq_String, eq_ℕ,
  find_index?, get_elem?, inl, inr, none, refl, some, suc, sym, true, zero, ℕ, ◌+◌, ◌==◌, ◌∙◌, ◌∷◌,
  ◌≡◌,
}
use vda_5050_lib_js.Vda.{Action, Edge, Node, Order, is_hard}
use vda_5050_lib_js.Agv.Controller.{Controller, Outcome, done, out_of_fuel, thrown, ◌>>=◌}
use vda_5050_lib_js.Agv.Chunk.{find_from, next_chunk}
use vda_5050_lib_js.Agv.Traversal.{
  finish_edge_action_of, finish_edge_actions, finish_traversed, is_true, process_chunk,
  process_each, process_edge, process_edge_action, process_edge_actions, process_if_released,
  process_node, process_node_action, process_node_actions, report_node, traverse, with_order,
}
use vda_5050_lib_js.Agv.Queries.{get_trailing_edge, is_action_ended}
use vda_5050_lib_js.Agv.Updates.{update_state}

-- The call returns with this order as the current one.
abbrev pub Retains : Order → Outcome → Type 0
Retains order (done c) = c.current_order ≡ some order
Retains order (thrown c) = ⊥
Retains order out_of_fuel = ⊥

pub Retains-bind :
    (order : Order) (o : Outcome) (f : Controller → Outcome)
    → Retains order o
    → ((c : Controller) → c.current_order ≡ some order → Retains order (f c))
    → Retains order (o >>= f)
Retains-bind order (done c) f h k = k c h
Retains-bind order (thrown c) f h k = h
Retains-bind order out_of_fuel f h k = h

-- A step that returns from every state with this order, and leaves it.
abbrev pub IsRetaining : Order → (Controller → Outcome) → Type 0
IsRetaining order f = (c : Controller) → c.current_order ≡ some order → Retains order (f c)

pub with_order-Retains :
    (order : Order) (c : Controller) (f : Order → Outcome)
    → c.current_order ≡ some order
    → Retains order (f order)
    → Retains order (with_order c f)
with_order-Retains order c f h k = rw (h, with_order) k

pub found_in_range {ℓ} :
    {A : Type ℓ} (p : A → Bool) (xs : List A) (i : ℕ)
    → find_index? p xs ≡ some i
    → (a : A) × (get_elem? xs i ≡ some a)
found_in_range p [] i e = absurd (ground arith)
found_in_range p (x ∷ xs) i e = elim (Bool-cases (p x)) [
  | inl h ↦ (x, ground arith)
  | inr h ↦ elim (Option-cases (find_index? p xs)) [
    | inl none_found ↦ absurd (ground arith)
    | inr (j, found) ↦ let (a, k) = found_in_range p xs j found in (a, ground arith)
  ]
]

pub get_elem?-drop {ℓ} :
    {A : Type ℓ} (start i : ℕ) (xs : List A)
    → get_elem? (drop start xs) i ≡ get_elem? xs (start + i)
get_elem?-drop zero i xs = ap (get_elem? xs) (omega arith)
get_elem?-drop (suc start) i [] = refl
get_elem?-drop (suc start) i (x ∷ xs) =
    let shifted : suc (start + i) ≡ suc start + i = omega arith in
    get_elem?-drop start i xs ∙ ap (get_elem? (x ∷ xs)) shifted

-- The index of the next hard action is in range.
find_from-get_elem? :
    (start i : ℕ) (p : Action → Bool) (actions : List Action)
    → find_from start p actions ≡ some i
    → (a : Action) × (get_elem? actions i ≡ some a)
unfolding find_from
find_from-get_elem? start i p actions e = elim (Option-cases (find_index? p (drop start actions))) [
  | inl none_found ↦ absurd (ground arith)
  | inr (j, found) ↦
      let (a, here) = found_in_range p (drop start actions) j found in
      let at : start + j ≡ i = ground arith in
      (a, ap (get_elem? actions) (sym at) ∙ sym (get_elem?-drop start j actions) ∙ here)
]

process_each-Retains :
    (order : Order) (process : Action → Controller → Outcome) (actions : List Action)
    → ((a : Action) → IsRetaining order (process a))
    → IsRetaining order (process_each process actions)
unfolding process_each
process_each-Retains order process [] s c h = h
process_each-Retains order process (a ∷ actions) s c h =
    Retains-bind order (process a c) (process_each process actions) (s a c h)
      (process_each-Retains order process actions s)

process_chunk-Retains :
    (order : Order) (process : Action → Bool → Controller → Outcome)
    (otherwise : Controller → Outcome) (after : Option Action) (actions : List Action)
    → ((a : Action) (b : Bool) → IsRetaining order (process a b))
    → IsRetaining order otherwise
    → IsRetaining order (process_chunk process otherwise (next_chunk after actions) actions)
unfolding process_chunk next_chunk
process_chunk-Retains order process otherwise after actions s t c h =
    let k = next_chunk after actions in
    elim (Bool-cases (k.stop_index == k.start)) [
      | inl e ↦ elim (Option-cases k.hard_index) [
        | inl e' ↦ simp (e, e') (t c h)
        | inr (i, e') ↦
            let (a, here) =
              find_from-get_elem? k.start i (λ b. is_hard b.blocking_type) actions e' in
            simp (e, e', here) (s a true c h)
      ]
      | inr e ↦ simp e (
          process_each-Retains order (λ a. process a k.stop_driving) _ (λ a. s a k.stop_driving) c
            h)
    ]

traverse-Retains : (order : Order) (edge : Edge) → IsRetaining order (traverse edge)
unfolding traverse
traverse-Retains order edge c h = with_order-Retains order c _ h h

process_edge_action-Retains :
    (order : Order) (edge : Edge) (a : Action) (b : Bool)
    → IsRetaining order (process_edge_action edge a b)
unfolding process_edge_action
process_edge_action-Retains order edge a b c h = with_order-Retains order c _ h h

process_node_action-Retains :
    (order : Order) (node : Node) (a : Action) (b : Bool)
    → IsRetaining order (process_node_action node a b)
unfolding process_node_action
process_node_action-Retains order node a b c h = with_order-Retains order c _ h h

process_edge_actions-Retains :
    (order : Order) (edge : Edge) (after : Option Action)
    → IsRetaining order (process_edge_actions edge after)
unfolding process_edge_actions
process_edge_actions-Retains order edge after =
    process_chunk-Retains order (process_edge_action edge) (traverse edge) after edge.actions
      (process_edge_action-Retains order edge) (traverse-Retains order edge)

process_if_released-Retains :
    (order : Order) (edge : Option Edge) → IsRetaining order (process_if_released edge)
process_if_released-Retains order none c h = h
process_if_released-Retains order (some edge) c h = elim (Bool-cases edge.released) [
  | inl e ↦ simp e (process_edge_actions-Retains order edge none c h)
  | inr e ↦ simp e h
]

pub process_edge-Retains : (order : Order) (node : Node) → IsRetaining order (process_edge node)
unfolding process_edge
process_edge-Retains order node c h =
    with_order-Retains order c _ h
      (process_if_released-Retains order (get_trailing_edge order node) c h)

pub process_node_actions-Retains :
    (order : Order) (node : Node) (after : Option Action)
    → IsRetaining order (process_node_actions node after)
unfolding process_node_actions
process_node_actions-Retains order node after =
    process_chunk-Retains order (process_node_action node) (process_edge node) after node.actions
      (process_node_action-Retains order node) (process_edge-Retains order node)

finish_edge_actions-Retains :
    (order : Order) (edge : Edge) → IsRetaining order (finish_edge_actions edge)
unfolding finish_edge_actions finish_edge_action_of
finish_edge_actions-Retains order edge =
    process_each-Retains order (finish_edge_action_of edge) edge.actions λ a c h.
      elim (Bool-cases (is_action_ended c a)) [
        | inl e ↦ simp e h
        | inr e ↦ simp e (with_order-Retains order c _ h h)
      ]

finish_traversed-Retains :
    (order : Order) (edge : Option Edge) → IsRetaining order (finish_traversed edge)
finish_traversed-Retains order none c h = h
finish_traversed-Retains order (some edge) c h = finish_edge_actions-Retains order edge c h

pub process_node-Retains :
    (order : Order) (node : Node) (edge : Option Edge) → IsRetaining order (process_node node edge)
unfolding process_node report_node update_state
process_node-Retains order node edge c h = elim (Bool-cases node.released) [
  | inr e ↦ simp e h
  | inl e ↦ elim (Bool-cases (is_true c.current_state.paused)) [
    | inl p ↦ simp (e, p) h
    | inr p ↦
        simp (e, p)
          (Retains-bind order (finish_traversed edge c)
            (λ ended. process_node_actions node none (report_node node edge ended))
            (finish_traversed-Retains order edge c h)
            (λ c' h'. process_node_actions-Retains order node none (report_node node edge c') h'))
  ]
]
