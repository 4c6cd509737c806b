-- ===== src/Master/Stitching.antt =====
-- The first state event on an order that is stitched to an active one takes over the cache of that
-- one: the beginning of `_dispatchOrderState` in src/controller/master-controller.ts.
pub mod Bases
pub mod Agreed
pub mod Joint
use vda_5050_lib_js.Common.Map
use vda_5050_lib_js.Common.{
  Bool, List, Option, [], drop, eq_Bool, eq_Option, eq_String, eq_ℕ, find?, find_index?, get_elem?,
  last?, none, not, set, some, suc, take, true, zero, ℕ, ◌++◌,
}
use vda_5050_lib_js.Vda.{Action, eq_AgvId}
use vda_5050_lib_js.Common.Map.{Map}
use vda_5050_lib_js.Master.Controller.{
  EdgeObject, MasterController, NodeObject, OrderStateCache, Outcome, actions_of, change, done,
  out_of_fuel, thrown,
}
use vda_5050_lib_js.Master.Queries.{has_ids}
use vda_5050_lib_js.Master.Caches.{
  get_last_active_order_state_cache, put_all, remove_order_state_cache,
}

-- `slice(0, i)`, or all of it where no element is found.
abbrev pub slice_to {ℓ} : {A : Type ℓ} → Option ℕ → List A → List A
slice_to none xs = xs
slice_to (some i) xs = take i xs

abbrev pub base_of {ℓ} : {A : Type ℓ} → (A → Bool) → List A → List A
base_of released xs = slice_to (find_index? (λ x. not (released x)) xs) xs

abbrev pub node_released : NodeObject → Bool
node_released n = n.node.released

abbrev pub edge_released : EdgeObject → Bool
edge_released e = e.edge.released

-- The element before the one at the index, or the last one.
abbrev pub before {ℓ} : {A : Type ℓ} → Option ℕ → List A → Option A
before none xs = last? xs
before (some zero) xs = none
before (some (suc i)) xs = get_elem? xs i

abbrev pub last_base_end : List NodeObject → Option NodeObject
last_base_end nodes = before (find_index? (λ n. not (node_released n)) nodes) nodes

unfoldable pub stitched_nodes : List NodeObject → List NodeObject → List NodeObject
stitched_nodes old new = base_of node_released old ++ drop 1 new

unfoldable pub stitched_edges : List EdgeObject → List EdgeObject → List EdgeObject
stitched_edges old new = base_of edge_released old ++ new

abbrev pub set_nodes : List NodeObject → OrderStateCache → OrderStateCache
set_nodes nodes cache = record cache {
  combined_order = record cache.combined_order { nodes = nodes };
}

abbrev pub node_again : List NodeObject → Option NodeObject → Option NodeObject
node_again nodes none = none
node_again nodes (some n) = find? (has_ids n.node.node_id n.node.sequence_id) nodes

abbrev pub take_over : OrderStateCache → OrderStateCache → OrderStateCache
take_over last cache = record cache {
  combined_order = record cache.combined_order {
    edges = stitched_edges last.combined_order.edges cache.combined_order.edges;
  };
  last_node_traversed = node_again cache.combined_order.nodes last.last_node_traversed;
  last_edge_state_changes = last.last_edge_state_changes;
  edge_state_change_invocations = last.edge_state_change_invocations;
  last_edge_processed = last.last_edge_processed;
  mapped_actions = put_all cache.mapped_actions (put_all last.mapped_actions []);
  last_action_states = last.last_action_states;
}

-- `lastBaseEnd.actions = lastBaseEnd.actions.concat(newFirstNodeActions)`.
abbrev pub append_actions : NodeObject → List Action → MasterController → MasterController
append_actions n actions c = record c {
  node_actions = Map.set n.identity (actions_of c n ++ actions) c.node_actions;
}

abbrev pub joined : ℕ → ℕ → MasterController → MasterController
joined k last c =
    change k
      (set_nodes
        (stitched_nodes (c.caches last).combined_order.nodes (c.caches k).combined_order.nodes))
      c

abbrev pub appended : ℕ → ℕ → MasterController → NodeObject → NodeObject → MasterController
appended k last c first base_end = append_actions base_end (actions_of c first) (joined k last c)

-- An order without nodes makes this throw, and a previous one without a base does so after the
-- nodes have been assigned.
abbrev pub stitch_with : ℕ → ℕ → MasterController → (first base_end : Option NodeObject) → Outcome
stitch_with k last c none _ = thrown c
stitch_with k last c (some first) none = thrown (joined k last c)
stitch_with k last c (some first) (some base_end) =
    let d = appended k last c first base_end in
    done (remove_order_state_cache last true (change k (take_over (d.caches last)) d))

unfoldable pub stitch : ℕ → ℕ → MasterController → Outcome
unfolding stitched_nodes stitched_edges remove_order_state_cache Map.get Map.set
stitch k last c =
    stitch_with k last c (get_elem? (c.caches k).combined_order.nodes 0)
      (last_base_end (c.caches last).combined_order.nodes)

abbrev pub stitch_active : ℕ → Option (Option ℕ) → MasterController → Outcome
stitch_active k none c = out_of_fuel
stitch_active k (some none) c = done c
stitch_active k (some (some last)) c = stitch k last c

unfoldable pub stitch_to_last : ℕ → MasterController → Outcome
unfolding stitch get_last_active_order_state_cache
stitch_to_last k c = elim (c.caches k).last_cache [
  | none ↦ done c
  | some last ↦ stitch_active k (get_last_active_order_state_cache k last c) c
]
