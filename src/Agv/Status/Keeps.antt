-- ===== src/Agv/Status/Keeps.antt =====
-- How many instant actions a call leaves in the list.
use vda_5050_lib_js.Common.{
  Bool, Bool-cases, List, Option, Option-cases, [], arith, eq_Option, eq_String, eq_ℕ, get_elem?,
  inl, inr, length, none, some, true, ℕ, ◌==◌, ◌∷◌, ◌≡◌, ◌≤◌,
}
use vda_5050_lib_js.Vda.{Action, Edge, Node, Order}
use vda_5050_lib_js.Agv.Controller.{Controller, Outcome, done, out_of_fuel, thrown, ◌>>=◌}
use vda_5050_lib_js.Agv.Queries.{get_trailing_edge, is_action_ended}
use vda_5050_lib_js.Agv.Updates.{update_state}
use vda_5050_lib_js.Agv.Chunk.{Chunk, next_chunk}
use vda_5050_lib_js.Agv.Traversal.{
  finish_edge_action_of, finish_edge_actions, finish_traversed, is_true, or_throw, process_chunk,
  process_each, process_edge, process_edge_action, process_edge_actions, process_if_released,
  process_node, process_node_action, process_node_actions, report_node, traverse, with_order,
}

-- At most `n` instant actions are pending, and the current order is this one.
abbrev pub Holds : ℕ → Option Order → Controller → Type 0
Holds n r c = (length c.current_instant_actions ≤ n) × (c.current_order ≡ r)

-- The call returns or throws in such a state; the fuel is enough.
abbrev pub Keeps : ℕ → Option Order → Outcome → Type 0
Keeps n r (done c) = Holds n r c
Keeps n r (thrown c) = Holds n r c
Keeps n r out_of_fuel = ⊥

pub Keeps-bind :
    (n : ℕ) (r : Option Order) (o : Outcome) (f : Controller → Outcome)
    → Keeps n r o
    → ((c : Controller) → Holds n r c → Keeps n r (f c))
    → Keeps n r (o >>= f)
Keeps-bind n r (done c) f h k = k c h
Keeps-bind n r (thrown c) f h k = h
Keeps-bind n r out_of_fuel f h k = h

pub Keeps-mono : (n m : ℕ) (r : Option Order) (o : Outcome) → n ≤ m → Keeps n r o → Keeps m r o
Keeps-mono n m r (done c) h (k, e) = (omega arith, e)
Keeps-mono n m r (thrown c) h (k, e) = (omega arith, e)
Keeps-mono n m r out_of_fuel h k = k

-- A step that keeps every such state.
abbrev pub IsSteady : (Controller → Outcome) → Type 0
IsSteady f = (n : ℕ) (r : Option Order) (c : Controller) → Holds n r c → Keeps n r (f c)

pub with_order-Keeps :
    (n : ℕ) (r : Option Order) (c : Controller) (f : Order → Outcome)
    → Holds n r c
    → ((order : Order) → Keeps n r (f order))
    → Keeps n r (with_order c f)
with_order-Keeps n r c f h k = elim (Option-cases c.current_order) [
  | inl e ↦ rw (e, with_order) h
  | inr (order, e) ↦ rw (e, with_order) (k order)
]

pub or_throw-Keeps {ℓ} :
    {A : Type ℓ} (n : ℕ) (r : Option Order) (c : Controller) (o : Option A) (f : A → Outcome)
    → Holds n r c
    → ((a : A) → Keeps n r (f a))
    → Keeps n r (or_throw c o f)
or_throw-Keeps n r c none f h k = h
or_throw-Keeps n r c (some a) f h k = k a

pub process_each-IsSteady :
    (process : Action → Controller → Outcome) (actions : List Action)
    → ((a : Action) → IsSteady (process a))
    → IsSteady (process_each process actions)
unfolding process_each
process_each-IsSteady process [] s n r c h = h
process_each-IsSteady process (a ∷ actions) s n r c h =
    Keeps-bind n r (process a c) (process_each process actions) (s a n r c h)
      (λ c' h'. process_each-IsSteady process actions s n r c' h')

pub process_chunk-IsSteady :
    (process : Action → Bool → Controller → Outcome) (otherwise : Controller → Outcome) (k : Chunk)
    (actions : List Action)
    → ((a : Action) (b : Bool) → IsSteady (process a b))
    → IsSteady otherwise
    → IsSteady (process_chunk process otherwise k actions)
unfolding process_chunk
process_chunk-IsSteady process otherwise k actions s t n r c h =
    elim (Bool-cases (k.stop_index == k.start)) [
      | inl e ↦ elim (Option-cases k.hard_index) [
        | inl e' ↦ simp (e, e') (t n r c h)
        | inr (i, e') ↦
            simp (e, e')
              (or_throw-Keeps n r c (get_elem? actions i) (λ a. process a true c) h
                (λ a. s a true n r c h))
      ]
      | inr e ↦ simp e (
          process_each-IsSteady (λ a. process a k.stop_driving) _ (λ a. s a k.stop_driving) n r c h)
    ]

pub traverse-IsSteady : (edge : Edge) → IsSteady (traverse edge)
unfolding traverse
traverse-IsSteady edge n r c h = with_order-Keeps n r c _ h (λ order. h)

pub process_edge_action-IsSteady :
    (edge : Edge) (a : Action) (b : Bool) → IsSteady (process_edge_action edge a b)
unfolding process_edge_action
process_edge_action-IsSteady edge a b n r c h = with_order-Keeps n r c _ h (λ order. h)

pub process_node_action-IsSteady :
    (node : Node) (a : Action) (b : Bool) → IsSteady (process_node_action node a b)
unfolding process_node_action
process_node_action-IsSteady node a b n r c h = with_order-Keeps n r c _ h (λ order. h)

pub process_edge_actions-IsSteady :
    (edge : Edge) (after : Option Action) → IsSteady (process_edge_actions edge after)
unfolding process_edge_actions
process_edge_actions-IsSteady edge after =
    process_chunk-IsSteady (process_edge_action edge) (traverse edge)
      (next_chunk after edge.actions) edge.actions (process_edge_action-IsSteady edge)
      (traverse-IsSteady edge)

process_if_released-IsSteady : (edge : Option Edge) → IsSteady (process_if_released edge)
process_if_released-IsSteady none n r c h = h
process_if_released-IsSteady (some edge) n r c h = elim (Bool-cases edge.released) [
  | inl e ↦ simp e (process_edge_actions-IsSteady edge none n r c h)
  | inr e ↦ simp e h
]

pub process_edge-IsSteady : (node : Node) → IsSteady (process_edge node)
unfolding process_edge
process_edge-IsSteady node n r c h =
    with_order-Keeps n r c _ h
      (λ order. process_if_released-IsSteady (get_trailing_edge order node) n r c h)

pub process_node_actions-IsSteady :
    (node : Node) (after : Option Action) → IsSteady (process_node_actions node after)
unfolding process_node_actions
process_node_actions-IsSteady node after =
    process_chunk-IsSteady (process_node_action node) (process_edge node)
      (next_chunk after node.actions) node.actions (process_node_action-IsSteady node)
      (process_edge-IsSteady node)

finish_edge_actions-IsSteady : (edge : Edge) → IsSteady (finish_edge_actions edge)
unfolding finish_edge_actions finish_edge_action_of
finish_edge_actions-IsSteady edge =
    process_each-IsSteady (finish_edge_action_of edge) edge.actions λ a n r c h.
      elim (Bool-cases (is_action_ended c a)) [
        | inl e ↦ simp e h
        | inr e ↦ simp e (with_order-Keeps n r c _ h (λ order. h))
      ]

finish_traversed-IsSteady : (edge : Option Edge) → IsSteady (finish_traversed edge)
finish_traversed-IsSteady none n r c h = h
finish_traversed-IsSteady (some edge) n r c h = finish_edge_actions-IsSteady edge n r c h

pub process_node-IsSteady : (node : Node) (edge : Option Edge) → IsSteady (process_node node edge)
unfolding process_node report_node update_state
process_node-IsSteady node edge n r c h = elim (Bool-cases node.released) [
  | inr e ↦ simp e h
  | inl e ↦ elim (Bool-cases (is_true c.current_state.paused)) [
    | inl p ↦ simp (e, p) h
    | inr p ↦
        simp (e, p)
          (Keeps-bind n r (finish_traversed edge c)
            (λ ended. process_node_actions node none (report_node node edge ended))
            (finish_traversed-IsSteady edge n r c h)
            (λ c' h'. process_node_actions-IsSteady node none n r (report_node node edge c') h'))
  ]
]
