-- ===== src/Agv/Orders/Meeting.antt =====
-- When an order starts where the base of the current order ends: what `_isOrderBaseStitching` of
-- src/controller/agv-controller.ts is to find out.
use vda_5050_lib_js.Common.{
  ==_of_eq, Bool, Bool-cases, List, Option, Option-cases, [], ap, arith, eq_Bool, eq_Option,
  eq_String, eq_of_==, eq_ℕ, false, get_elem?, if◌then◌else◌, inl, inr, length, refl, some, sym,
  true, ◌&&◌, ◌==◌, ◌∙◌, ◌∷◌, ◌≡◌, ◌⊎◌,
}
use mathlib.Core.Path.{subst}
use vda_5050_lib_js.Vda.{Node, Order, eq_AgvId}
use vda_5050_lib_js.Agv.Controller.{Controller}
use vda_5050_lib_js.Agv.Queries.{base_end}
use vda_5050_lib_js.Agv.Constraints.Route.{IsWellFormed, Starts}
use vda_5050_lib_js.Agv.Orders.{is_order_base_stitching}
use vda_5050_lib_js.Agv.Orders.Accept.{base_nodes}
use vda_5050_lib_js.Agv.Orders.Bases.{base_end_lem}

-- The last node of a base that starts with the given one.
abbrev pub last_released : Node → List Node → Node
last_released n [] = n
last_released n (m ∷ nodes) = if m.released then last_released m nodes else n

-- The second nodes start at the last node of the base of the first ones.
abbrev pub Meets : List Node → List Node → Type 0
Meets [] ms = ⊥
Meets (n ∷ ns) [] = ⊥
Meets (n ∷ ns) (m ∷ ms) =
    (m.node_id ≡ (last_released n ns).node_id) × (m.sequence_id ≡ (last_released n ns).sequence_id)

-- The order does not start at the end of the current order's base.
abbrev pub IsApart : Order → Controller → Type 0
IsApart order c =
    (current : Order) → c.current_order ≡ some current → ¬ Meets current.nodes order.nodes

last_lem :
    (n : Node) (ns : List Node)
    → get_elem? (n ∷ ns) (length (base_nodes ns)) ≡ some (last_released n ns)
last_lem n [] = refl
last_lem n (m ∷ ns) = elim (Bool-cases m.released) [
  | inl e ↦ simp e (last_lem m ns)
  | inr e ↦ simp e refl
]

base_end-last :
    (n : Node) (ns : List Node) → n.released ≡ true → base_end (n ∷ ns) ≡ some (last_released n ns)
base_end-last n ns h = base_end_lem n ns h ∙ last_lem n ns

-- Of two well-formed orders, both answers say whether they meet.
abbrev Answered : Option Bool → List Node → List Node → Type 0
Answered answer ns ms =
    ((answer ≡ some true) × Meets ns ms) ⊎ ((answer ≡ some false) × (¬ Meets ns ms))

meet_or_not :
    (current order : Order) (c : Controller) (ns ms : List Node)
    → c.current_order ≡ some current
    → current.nodes ≡ ns
    → order.nodes ≡ ms
    → Starts ns current.edges
    → Starts ms order.edges
    → Answered (is_order_base_stitching c order) ns ms
unfolding is_order_base_stitching
meet_or_not current order c [] ms here p q v w = absurd v
meet_or_not current order c (n ∷ ns) [] here p q v w = absurd w
meet_or_not current order c (n ∷ ns) (m ∷ ms) here p q v w =
    let end = last_released n ns in
    let found : base_end current.nodes ≡ some end = ap base_end p ∙ base_end-last n ns v.0 in
    let id = end.node_id == m.node_id in
    let place = end.sequence_id == m.sequence_id in
    let answer : is_order_base_stitching c order ≡ some (id && place) = ground arith in
    elim (Bool-cases (id && place)) [
      | inl fits ↦ inl (
        answer ∙ ap some fits,
        (
          sym (eq_of_== end.node_id m.node_id (ground arith)),
          sym (eq_of_== end.sequence_id m.sequence_id (ground arith)),
        ),
      )
      | inr away ↦ inr (
        answer ∙ ap some away,
        λ (r, t).
            let one = ==_of_eq end.node_id m.node_id (sym r) in
            let two = ==_of_eq end.sequence_id m.sequence_id (sym t) in ground arith,
      )
    ]

-- For a well-formed order, `_isOrderBaseStitching` finds out whether it starts at the end of the
-- base of the current order.
pub stitching-answers :
    (order : Order) (c : Controller)
    → ((current : Order) → c.current_order ≡ some current → IsWellFormed current)
    → IsWellFormed order
    → ((is_order_base_stitching c order ≡ some true)
        × ((current : Order) × (c.current_order ≡ some current) × Meets current.nodes order.nodes))
      ⊎ ((is_order_base_stitching c order ≡ some false) × IsApart order c)
unfolding is_order_base_stitching
stitching-answers order c v w = elim (Option-cases c.current_order) [
  | inl idle ↦ inr (ground arith, λ current here. absurd (cc))
  | inr (current, here) ↦
      elim (meet_or_not current order c current.nodes order.nodes here refl refl (v current here)
        w) [
          | inl (e, meets) ↦ inl (e, (current, here, meets))
          | inr (e, away) ↦ inr (
            e,
            λ other there.
                let same : other ≡ current = cc in
                subst (λ (o : Order). ¬ Meets o.nodes order.nodes) (sym same) away,
          )
        ]
]
