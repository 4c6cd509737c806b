-- ===== src/Master/Queries.antt =====
-- What is looked up in an order and a state: `_getNode`, `_getNextEdge` and the like in src/
-- controller/master-controller.ts.
pub mod Progressed
use mathlib.Core.Option
use vda_5050_lib_js.Common.Map
use vda_5050_lib_js.Mqtt.AgvIdMap
use vda_5050_lib_js.Common.{
  Bool, List, Option, String, [], all, any, eq_Bool, eq_Option, eq_String, eq_ℕ, false, find?,
  if◌then◌else◌, none, not, refl, some, true, ℕ, ◌&&◌, ◌+◌, ◌==◌, ◌||◌, ◌∷◌, ◌≡◌,
}
use vda_5050_lib_js.Vda.{
  ActionState, ActionStatus, AgvId, BlockingType, Error, ErrorReference, State, eq_AgvId, is_ended,
  no_blocking,
}
use vda_5050_lib_js.Common.Map.{Map}
use vda_5050_lib_js.Master.Controller.{
  EdgeObject, InstantActionStateCache, MappedAction, MasterController, NodeObject, OrderObject,
  OrderStateCache, actions_of,
}

abbrev pub has_ids : String → ℕ → NodeObject → Bool
has_ids node_id sequence_id n = n.node.node_id == node_id && n.node.sequence_id == sequence_id

unfoldable pub get_node : OrderObject → String → ℕ → Option NodeObject
get_node order node_id sequence_id = find? (has_ids node_id sequence_id) order.nodes

abbrev pub leaves : NodeObject → EdgeObject → Bool
leaves n e = e.edge.start_node_id == n.node.node_id && e.edge.sequence_id == n.node.sequence_id + 1

unfoldable pub get_next_edge : OrderObject → NodeObject → Option EdgeObject
get_next_edge order n = find? (leaves n) order.edges

unfoldable pub get_next_released_edge : OrderObject → NodeObject → Option EdgeObject
get_next_released_edge order n = find? (λ e. e.edge.released && leaves n e) order.edges

unfoldable pub get_edge_start_node : OrderObject → EdgeObject → Option NodeObject
get_edge_start_node order e =
    find?
      (λ n. n.node.node_id == e.edge.start_node_id && n.node.sequence_id + 1 == e.edge.sequence_id)
      order.nodes

unfoldable pub get_edge_end_node : OrderObject → EdgeObject → Option NodeObject
get_edge_end_node order e =
    find?
      (λ n. n.node.node_id == e.edge.end_node_id && n.node.sequence_id == e.edge.sequence_id + 1)
      order.nodes

abbrev pub state_of : String → List ActionState → Option ActionState
state_of action_id = find? (λ s. s.action_id == action_id)

abbrev pub ended : Option ActionState → Bool
ended none = false
ended (some s) = is_ended s.action_status

abbrev is_none : BlockingType → Bool
is_none no_blocking = true
is_none _ = false

unfoldable pub are_all_blocking_actions_ended : MasterController → NodeObject → State → Bool
unfolding is_ended
are_all_blocking_actions_ended c n state =
    all (λ a. is_none a.blocking_type || ended (state_of a.action_id state.action_states))
      (actions_of c n)

-- `errorReferences ?? []`.
abbrev pub references : Error → List ErrorReference
references e = Option.get_or e.error_references []

abbrev pub is_ref : String → String → ErrorReference → Bool
is_ref key value r = r.reference_key == key && r.reference_value == value

abbrev pub error_topic : Bool → String
error_topic true = "instantActions"
error_topic false = "order"

unfoldable pub get_action_error : List Error → String → Bool → Option Error
get_action_error errors action_id as_instant_action =
    find?
      (λ e.
        any (is_ref "actionId" action_id) (references e)
        && any (is_ref "topic" (error_topic as_instant_action)) (references e))
      errors

-- The test of a status that is to be among those of a cancelation.
abbrev pub canceled_in : (ActionStatus → Bool) → Option ActionState → Bool
canceled_in cancel_status none = false
canceled_in cancel_status (some s) = cancel_status s.action_status

-- The first cancelOrder among the caches decides.
abbrev pub canceled_by :
    (ActionStatus → Bool) → List ActionState → Map String InstantActionStateCache → Bool
canceled_by cancel_status states caches =
    elim (find? (λ (b : String × InstantActionStateCache). b.1.action.action_type == "cancelOrder")
      caches) [
        | none ↦ false
        | some (action_id, cache) ↦ canceled_in cancel_status (state_of action_id states)
      ]

unfoldable pub is_order_canceling : AgvId → State → (ActionStatus → Bool) → MasterController → Bool
unfolding AgvIdMap.get
is_order_canceling agv_id state cancel_status c =
    elim (AgvIdMap.get agv_id c.current_instant_actions) [
      | none ↦ false
      | some caches ↦ canceled_by cancel_status state.action_states caches
    ]

-- `true`, `undefined` and `false` of `_isOrderProcessed`.
pub data Progress : Type 0 where
  processed processed_active unprocessed : Progress

-- Whether the last state of each action of the order has ended it.
abbrev pub all_actions_ended : Map String ActionState → Map String MappedAction → Bool
all_actions_ended last_states mapped =
    all (λ (b : String × MappedAction). ended (Map.get b.1.action.action_id last_states)) mapped

abbrev pub is_empty {ℓ} : {A : Type ℓ} → List A → Bool
is_empty [] = true
is_empty (x ∷ xs) = false

pub is_empty-eq {ℓ} : {A : Type ℓ} (xs : List A) → is_empty xs ≡ true → xs ≡ []
is_empty-eq [] e = refl
is_empty-eq (x ∷ xs) e = cc

unfoldable pub is_order_processed : OrderStateCache → State → Progress
unfolding is_ended Map.get
is_order_processed cache state =
    let actions_ended = all_actions_ended cache.last_action_states cache.mapped_actions in
    if is_empty state.node_states && is_empty state.edge_states
    then if actions_ended then processed else unprocessed
    else if all (λ s. not s.released) state.node_states
        && all (λ s. not s.released) state.edge_states
    then if actions_ended then processed_active else unprocessed
    else unprocessed
