-- ===== src/Agv/Orders/Canceling/Asked.antt =====
-- Which context the adapter is handed for an action that is to be canceled: `_cancelOrder` of
-- src/controller/agv-controller.ts.
use vda_5050_lib_js.Common.{
  All, Bool, Bool-cases, In, List, [], ap, eq_Bool, eq_Option, eq_String, eq_of_==, eq_ℕ, false,
  inl, inr, none, refl, some, take_while, true, ◌==◌, ◌∙◌, ◌∷◌, ◌≡◌, ◌⊎◌,
}
use vda_5050_lib_js.Vda.{Action, ActionState, Edge, Node, Order, eq_AgvId}
use vda_5050_lib_js.Agv.Controller.{ActionContext, Effect, cancel_action, edge_scope, node_scope}
use vda_5050_lib_js.Agv.Queries.{get_edge_end_node, get_edge_start_node}
use vda_5050_lib_js.Agv.Traversal.{edge_context, node_context}
use vda_5050_lib_js.Agv.Status.Cancel.{
  cancel_context, find_action, find_edge_context, find_node_context,
}

-- The context belongs to a base node or a base edge of the order, to an action of it with the id of
-- the state.
pub record AtNode (order : Order) (context : ActionContext) (n : Node) : Type 0 where
  pub here : In n order.nodes
  pub released : n.released ≡ true
  pub has : In context.action n.actions
  pub scope : context.scope ≡ node_scope
  pub node : context.node ≡ some n

pub record AtEdge (order : Order) (context : ActionContext) (e : Edge) : Type 0 where
  pub here : In e order.edges
  pub released : e.released ≡ true
  pub has : In context.action e.actions
  pub scope : context.scope ≡ edge_scope
  pub edge : context.edge ≡ some e
  pub start : context.edge_start_node ≡ get_edge_start_node order e
  pub end : context.edge_end_node ≡ get_edge_end_node order e

pub record IsContext (order : Order) (s : ActionState) (context : ActionContext) : Type 0 where
  pub id : context.action.action_id ≡ s.action_id
  pub order_id : context.active_order_id ≡ some order.order_id
  pub place : ((n : Node) × AtNode order context n) ⊎ ((e : Edge) × AtEdge order context e)

abbrev pub Lacks : ActionState → List Action → Type 0
Lacks s = All (λ (a : Action). (a.action_id == s.action_id) ≡ false)

-- No base node and no base edge has an action with the id of the state.
pub record IsUnknown (order : Order) (s : ActionState) : Type 0 where
  pub nodes : All (λ (n : Node). Lacks s n.actions) (take_while (λ n. n.released) order.nodes)
  pub edges : All (λ (e : Edge). Lacks s e.actions) (take_while (λ e. e.released) order.edges)

-- What the adapter is asked for an action state.
abbrev pub IsAsked : Order → ActionState → Effect → Type 0
IsAsked order s effect =
    ((context : ActionContext) × (effect ≡ cancel_action (some context))
      × IsContext order s context)
    ⊎ ((effect ≡ cancel_action none) × IsUnknown order s)

find_action-cases :
    (actions : List Action) (s : ActionState)
    → ((find_action actions s ≡ none) × Lacks s actions)
      ⊎ ((a : Action) × (find_action actions s ≡ some a)
          × In a actions
          × (a.action_id ≡ s.action_id))
unfolding find_action
find_action-cases [] s = inl (refl, tt)
find_action-cases (a ∷ actions) s = elim (Bool-cases (a.action_id == s.action_id)) [
  | inl e ↦ inr (a, simp e refl, inl refl, eq_of_== a.action_id s.action_id e)
  | inr e ↦ elim (find_action-cases actions s) [
    | inl (f, none_of) ↦ inl (simp e f, (e, none_of))
    | inr (b, f, i, same) ↦ inr (b, simp e f, inr i, same)
  ]
]

In-take_while :
    {A : Type 0} (p : A → Bool) (x : A) (xs : List A)
    → In x (take_while p xs)
    → In x xs × (p x ≡ true)
In-take_while p x [] i = absurd i
In-take_while p x (y ∷ xs) i = elim (Bool-cases (p y)) [
  | inr e ↦ let none_of : ⊥ = simp e at i in absurd none_of
  | inl e ↦
      let there : In x (y ∷ take_while p xs) = simp e at i in
      elim there [
        | inl same ↦ (inl same, ap p same ∙ e)
        | inr later ↦ let (j, h) = In-take_while p x xs later in (inr j, h)
      ]
]

module _ (order : Order) (s : ActionState) where
  node-cases :
      (ns : List Node)
      → ((n : Node) → In n ns → In n order.nodes × (n.released ≡ true))
      → ((find_node_context order ns s ≡ none) × All (λ (n : Node). Lacks s n.actions) ns)
        ⊎ ((context : ActionContext) × (find_node_context order ns s ≡ some context)
            × IsContext order s context)
  unfolding find_node_context
  node-cases [] h = inl (refl, tt)
  node-cases (n ∷ ns) h = elim (find_action-cases n.actions s) [
    | inl (f, none_of) ↦ elim (node-cases ns (λ m i. h m (inr i))) [
      | inl (g, rest) ↦ inl (rw (f, find_node_context) g, (none_of, rest))
      | inr (context, g, is) ↦ inr (context, rw (f, find_node_context) g, is)
    ]
    | inr (a, f, i, same) ↦
        let (here, released) = h n (inl refl) in
        inr (
          node_context order n a none,
          rw (f, find_node_context) refl,
          record {
            id = same;
            order_id = refl;
            place = inl (
              n,
              record { here = here; released = released; has = i; scope = refl; node = refl },
            );
          },
        )
  ]

  edge-cases :
      (es : List Edge)
      → ((e : Edge) → In e es → In e order.edges × (e.released ≡ true))
      → ((find_edge_context order es s ≡ none) × All (λ (e : Edge). Lacks s e.actions) es)
        ⊎ ((context : ActionContext) × (find_edge_context order es s ≡ some context)
            × IsContext order s context)
  unfolding find_edge_context
  edge-cases [] h = inl (refl, tt)
  edge-cases (e ∷ es) h = elim (find_action-cases e.actions s) [
    | inl (f, none_of) ↦ elim (edge-cases es (λ k i. h k (inr i))) [
      | inl (g, rest) ↦ inl (rw (f, find_edge_context) g, (none_of, rest))
      | inr (context, g, is) ↦ inr (context, rw (f, find_edge_context) g, is)
    ]
    | inr (a, f, i, same) ↦
        let (here, released) = h e (inl refl) in
        inr (
          edge_context order e a none,
          rw (f, find_edge_context) refl,
          record {
            id = same;
            order_id = refl;
            place = inr (
              e,
              record {
                here = here;
                released = released;
                has = i;
                scope = refl;
                edge = refl;
                start = refl;
                end = refl;
              },
            );
          },
        )
  ]

  pub cancel_context-IsAsked : IsAsked order s (cancel_action (cancel_context order s))
  unfolding cancel_context
  cancel_context-IsAsked =
      elim (node-cases (take_while (λ n. n.released) order.nodes)
        (λ n. In-take_while (λ n. n.released) n order.nodes)) [
          | inr (context, f, is) ↦ inl (context, ap cancel_action (rw (f, cancel_context) refl), is)
          | inl (f, nodes) ↦
              elim (edge-cases (take_while (λ e. e.released) order.edges)
                (λ e. In-take_while (λ e. e.released) e order.edges)) [
                  | inr (context, g, is) ↦
                      inl (context, ap cancel_action (rw (f, cancel_context) g), is)
                  | inl (g, edges) ↦ inr (
                    ap cancel_action (rw (f, cancel_context) g),
                    record { nodes = nodes; edges = edges },
                  )
                ]
        ]
