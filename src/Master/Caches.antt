-- ===== src/Master/Caches.antt =====
-- The caches of the orders that are assigned: `_addOrderStateCache`, `_removeOrderStateCache`,
-- `_getOrderStateCache`, `_getLastActiveOrderStateCache` and `assignOrder` of src/controller/
-- master-controller.ts.
use mathlib.Core.Option
pub mod Found
pub mod Emptied
pub mod Dropped
pub mod Active
pub mod Assignment
use vda_5050_lib_js.Common.Map
use vda_5050_lib_js.Mqtt.AgvIdMap
use vda_5050_lib_js.Common.{
  Bool, List, Option, String, [], eq_Option, eq_String, eq_ℕ, false, flat_map, if◌then◌else◌,
  is_some, map, none, some, suc, take_while, true, zero, ℕ, ◌++◌, ◌+◌, ◌==◌, ◌∷◌,
}
use vda_5050_lib_js.Vda.{Action, AgvId}
use vda_5050_lib_js.Common.Map.{Map}
use vda_5050_lib_js.Mqtt.AgvIdMap.{AgvIdMap, delete, entries, get, set}
use vda_5050_lib_js.Master.Controller.{
  AgvOrders, EdgeObject, MappedAction, MasterController, NodeObject, OrderEventHandler, OrderObject,
  OrderStateCache, Target, actions_of, change, emit, on_edge, on_node, publish_order, write,
}
use vda_5050_lib_js.Master.Queries.{is_empty}

abbrev pub cache_in : AgvOrders → String → ℕ → Option ℕ
cache_in orders order_id order_update_id = elim (Map.get order_id orders.order_ids) [
  | none ↦ none
  | some update_ids ↦ Map.get order_update_id update_ids
]

unfoldable pub get_order_state_cache : AgvId → String → ℕ → MasterController → Option ℕ
unfolding AgvIdMap.get Map.get
get_order_state_cache agv_id order_id order_update_id c =
    elim (AgvIdMap.get agv_id c.current_orders) [
      | none ↦ none
      | some orders ↦ cache_in orders order_id order_update_id
    ]

unfoldable pub get_last_assigned_order_state_cache : AgvId → MasterController → Option ℕ
unfolding AgvIdMap.get
get_last_assigned_order_state_cache agv_id c = elim (AgvIdMap.get agv_id c.current_orders) [
  | none ↦ none
  | some orders ↦ orders.last_cache
]

-- The entries for the actions of the released nodes, and of the released edges.
abbrev mapped_of : Target → List Action → List (String × MappedAction)
mapped_of target = map λ (a : Action). (a.action_id, record { action = a; target = target })

abbrev pub put_all :
    List (String × MappedAction) → Map String MappedAction → Map String MappedAction
put_all [] m = m
put_all ((k, v) ∷ entries) m = put_all entries (Map.set k v m)

unfoldable pub init_cached_actions : MasterController → OrderObject → Map String MappedAction
unfolding Map.get Map.set
init_cached_actions c order =
    put_all
      (flat_map (λ (n : NodeObject). mapped_of (on_node n) (actions_of c n))
          (take_while (λ (n : NodeObject). n.node.released) order.nodes)
        ++ flat_map (λ (e : EdgeObject). mapped_of (on_edge e) e.edge.actions)
            (take_while (λ (e : EdgeObject). e.edge.released) order.edges))
      []

abbrev pub no_orders : AgvOrders
no_orders = record { last_cache = none; order_ids = [] }

-- The maps with the cache entered at its keys, and as the last one of its AGV.
abbrev pub enter : String → ℕ → ℕ → AgvOrders → AgvOrders
enter order_id order_update_id k orders = record {
  last_cache = some k;
  order_ids =
      Map.set order_id
        (Map.set order_update_id k (Option.get_or (Map.get order_id orders.order_ids) []))
        orders.order_ids;
}

unfoldable pub new_cache :
    AgvId → OrderObject → OrderEventHandler → MasterController → OrderStateCache
unfolding get_last_assigned_order_state_cache init_cached_actions
new_cache agv_id order event_handler c = record {
  agv_id = agv_id;
  event_handler = event_handler;
  order = order;
  is_order_processed_handler_invoked = false;
  last_cache = get_last_assigned_order_state_cache agv_id c;
  combined_order = order;
  last_node_traversed = none;
  last_edge_state_changes = none;
  edge_state_change_invocations = 0;
  last_edge_processed = none;
  last_action_states = [];
  mapped_actions = init_cached_actions c order;
}

unfoldable pub add_order_state_cache :
    AgvId → OrderObject → OrderEventHandler → MasterController → MasterController
unfolding AgvIdMap.get AgvIdMap.set Map.get Map.set new_cache
add_order_state_cache agv_id order event_handler c =
    let orders = Option.get_or (AgvIdMap.get agv_id c.current_orders) no_orders in
    record c {
      caches = write c.next_cache (new_cache agv_id order event_handler c) c.caches;
      next_cache = c.next_cache + 1;
      current_orders =
          AgvIdMap.set agv_id (enter order.order_id order.order_update_id c.next_cache orders)
            c.current_orders;
    }

-- The map of an order without an update; the map of an AGV without an order. Maps that have become
-- empty are removed.
abbrev pub without_update : String → Map ℕ ℕ → AgvOrders → AgvOrders
without_update order_id rest orders =
    if is_empty rest
    then record orders { order_ids = Map.delete order_id orders.order_ids }
    else record orders { order_ids = Map.set order_id rest orders.order_ids }

abbrev pub put_orders : AgvId → AgvOrders → AgvIdMap AgvOrders → AgvIdMap AgvOrders
put_orders agv_id orders m =
    if is_empty orders.order_ids then AgvIdMap.delete agv_id m else AgvIdMap.set agv_id orders m

unfoldable pub drop_cache : AgvId → String → ℕ → AgvIdMap AgvOrders → AgvIdMap AgvOrders
unfolding AgvIdMap.get AgvIdMap.set AgvIdMap.delete Map.get Map.set Map.delete
drop_cache agv_id order_id order_update_id m = elim (AgvIdMap.get agv_id m) [
  | none ↦ m
  | some orders ↦ elim (Map.get order_id orders.order_ids) [
    | none ↦ m
    | some update_ids ↦
        put_orders agv_id (without_update order_id (Map.delete order_update_id update_ids) orders) m
  ]
]

abbrev pub forget_last : Bool → OrderStateCache → OrderStateCache
forget_last delete_last_cache cache =
    if delete_last_cache then record cache { last_cache = none } else cache

unfoldable pub remove_order_state_cache : ℕ → Bool → MasterController → MasterController
unfolding drop_cache
remove_order_state_cache k delete_last_cache c =
    let cache = c.caches k in
    record (change k (forget_last delete_last_cache) c) {
      current_orders =
          drop_cache cache.agv_id cache.order.order_id cache.order.order_update_id c.current_orders;
    }

-- Whether the cache is the one that its keys lead to.
abbrev pub is_current : MasterController → AgvId → ℕ → Bool
is_current c agv_id k =
    get_order_state_cache agv_id (c.caches k).order.order_id (c.caches k).order.order_update_id c
    == some k

-- The loop, with the outer `none` where fuel runs out.
unfoldable pub last_active : ℕ → MasterController → AgvId → ℕ → Option (Option ℕ)
last_active zero c agv_id next = none
last_active (suc fuel) c agv_id next = elim (is_current c agv_id next) [
  | true ↦ some (some next)
  | false ↦ elim (c.caches next).last_cache [
    | none ↦ some none
    | some previous ↦ last_active fuel c agv_id previous
  ]
]

-- Caches refer to older ones, so that the number of the first one bounds the rounds.
unfoldable pub get_last_active_order_state_cache : ℕ → ℕ → MasterController → Option (Option ℕ)
unfolding last_active
get_last_active_order_state_cache k last c = last_active (suc last) c (c.caches k).agv_id last

-- `assignOrder` up to the point where it waits for the publication: a further order with the same
-- ids is discarded.
unfoldable pub assign_order :
    AgvId → OrderObject → OrderEventHandler → MasterController → MasterController
unfolding get_order_state_cache add_order_state_cache
assign_order agv_id order event_handler c =
    if is_some (get_order_state_cache agv_id order.order_id order.order_update_id c)
    then c
    else emit (publish_order agv_id order) (add_order_state_cache agv_id order event_handler c)

-- What follows if the publication fails.
unfoldable pub assignment_failed : ℕ → MasterController → MasterController
unfolding remove_order_state_cache
assignment_failed k c = remove_order_state_cache k false c
