-- ===== src/Agv/Orders/Handled.antt =====
-- The ways in which `_processOrder` handles an order that conforms to its schema.
pub mod Start
pub mod Stitch
pub mod Branches
pub mod Rejections
-- The current order, if there is one, is well formed.
use vda_5050_lib_js.Agv.ErrorType
use vda_5050_lib_js.Common.{List, String, [], false, some, true, ◌<◌, ◌∷◌, ◌≡◌, ◌≢◌, ◌⊎◌}
use vda_5050_lib_js.Vda.{Node, Order, State}
use vda_5050_lib_js.Agv.Controller.{
  Adapter, Controller, Outcome, done, out_of_fuel, publish_state, thrown,
}
use vda_5050_lib_js.Agv.Traversal.Retains.{Retains}
use vda_5050_lib_js.Agv.Queries.{has_active_order}
use vda_5050_lib_js.Agv.Constraints.Route.{IsWellFormed}
use vda_5050_lib_js.Agv.Orders.Meeting.{IsApart, Meets}
use vda_5050_lib_js.Agv.Orders.Accept.{stitched_order}
use vda_5050_lib_js.Agv.Orders.Refused.{IsExecutable, IsRejected}

abbrev pub IsValid : Controller → Type 0
IsValid c = (current : Order) → c.current_order ≡ some current → IsWellFormed current

-- The order has another id than the current one, if there is one.
abbrev pub IsOther : Order → Controller → Type 0
IsOther order c =
    (current : Order) → c.current_order ≡ some current → order.order_id ≢ current.order_id

-- The order is a later one with the id of the current order.
pub record IsUpdateOf (order current : Order) (c : Controller) : Type 0 where
  pub here : c.current_order ≡ some current
  pub same : order.order_id ≡ current.order_id
  pub later : current.order_update_id < order.order_update_id

abbrev pub Continues : Order → Controller → Type 0
Continues order c = IsOther order c ⊎ ((current : Order) × IsUpdateOf order current c)

-- The nodes start where the vehicle was last.
abbrev pub StartAt : List Node → State → Type 0
StartAt [] s = ⊥
StartAt (n ∷ nodes) s = (n.node_id ≡ s.last_node_id) × (n.sequence_id ≡ s.last_node_sequence_id)

-- The adapter has nothing against the first node's distance.
abbrev pub StartNear : Adapter → List Node → Type 0
StartNear env [] = ⊥
StartNear env (n ∷ nodes) = env.is_node_within_deviation_range n ≡ []

-- Why an executable order that is not to be stitched is rejected all the same, with the type of
-- the error.
pub data Declined (env : Adapter) (order : Order) (c : Controller) : String → Type 0 where
  outdated :
      (current : Order)
      → c.current_order ≡ some current
      → order.order_id ≡ current.order_id
      → order.order_update_id < current.order_update_id
      → Declined env order c ErrorType.order_update
  apart_update :
      (current : Order)
      → has_active_order c ≡ false
      → IsUpdateOf order current c
      → ¬ StartAt order.nodes c.current_state
      → Declined env order c ErrorType.order_update
  far :
      has_active_order c ≡ false
      → IsOther order c
      → ¬ StartNear env order.nodes
      → Declined env order c ErrorType.order_no_route

-- The ways in which an inbound order is handled, each with all that decides for it.
pub data Handled (env : Adapter) (order : Order) (c : Controller) : Controller → Type 0 where
  refused :
      (type : String) (c' : Controller)
      → ¬ IsExecutable env order c
      → IsRejected c type c'
      → Handled env order c c'
  declined :
      (type : String) (c' : Controller)
      → IsExecutable env order c
      → Declined env order c type
      → IsRejected c type c'
      → Handled env order c c'
  unjoined :
      (c' : Controller)
      → IsExecutable env order c
      → has_active_order c ≡ true
      → Continues order c
      → IsApart order c
      → IsRejected c ErrorType.order_update c'
      → Handled env order c c'
  discarded :
      (current : Order) (c' : Controller)
      → IsExecutable env order c
      → c.current_order ≡ some current
      → order.order_id ≡ current.order_id
      → order.order_update_id ≡ current.order_update_id
      → c'.current_order ≡ c.current_order
      → c'.effects ≡ publish_state c'.current_state ∷ c.effects
      → Handled env order c c'
  begun :
      (c' : Controller)
      → IsExecutable env order c
      → has_active_order c ≡ false
      → IsOther order c
      → StartNear env order.nodes
      → c'.current_order ≡ some order
      → Handled env order c c'
  updated :
      (current : Order) (c' : Controller)
      → IsExecutable env order c
      → has_active_order c ≡ false
      → IsUpdateOf order current c
      → StartAt order.nodes c.current_state
      → c'.current_order ≡ some order
      → Handled env order c c'
  stitched :
      (current : Order) (c' : Controller)
      → IsExecutable env order c
      → has_active_order c ≡ true
      → c.current_order ≡ some current
      → Continues order c
      → Meets current.nodes order.nodes
      → c'.current_order ≡ some (stitched_order current order)
      → Handled env order c c'

abbrev pub Handles : Adapter → Order → Controller → Outcome → Type 0
Handles env order c (done c') = Handled env order c c'
Handles env order c (thrown c') = ⊥
Handles env order c out_of_fuel = ⊥

pub retained :
    (env : Adapter) (order now : Order) (c : Controller) (o : Outcome)
    → Retains now o
    → ((c' : Controller) → c'.current_order ≡ some now → Handled env order c c')
    → Handles env order c o
retained env order now c (done c') h k = k c' h
retained env order now c (thrown c') h k = h
retained env order now c out_of_fuel h k = h
