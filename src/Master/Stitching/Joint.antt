-- ===== src/Master/Stitching/Joint.antt =====
-- An order that is stitched to an active one, on both sides: `_processOrder` of src/controller/
-- agv-controller.ts and `_dispatchOrderState` of src/controller/master-controller.ts.
use vda_5050_lib_js.Common.Map
use vda_5050_lib_js.Common.{
  ==_refl, List, [], ap, arith, drop, eq_Bool, eq_Option, eq_String, eq_ℕ, false, get_elem?, map,
  refl, some, sym, true, ℕ, ◌++◌, ◌==◌, ◌∙◌, ◌∷◌, ◌≡◌, ◌≢◌,
}
use vda_5050_lib_js.Common.Map.{Map}
use vda_5050_lib_js.Master.Controller.{MasterController, NodeObject, OrderObject, change, done}
use vda_5050_lib_js.Master.Caches.{remove_order_state_cache}
use vda_5050_lib_js.Master.Stitching.{
  appended, last_base_end, stitch, stitch_with, stitched_edges, stitched_nodes, take_over,
}
use vda_5050_lib_js.Master.Stitching.Bases.{end_of, last_base_end_lem, node_of}
use vda_5050_lib_js.Master.Stitching.Agreed.{
  AreDistinct, as_order, stitched_edges-agree, stitched_nodes-agree,
}
use vda_5050_lib_js.Agv.Controller.{Adapter, Controller, done as finished}
use vda_5050_lib_js.Agv.Queries.{base_end, base_end_index, has_active_order}
use vda_5050_lib_js.Agv.Constraints.Route.{IsWellFormed, Starts}
use vda_5050_lib_js.Agv.Orders.{conforming, is_order_base_stitching, process_order}
use vda_5050_lib_js.Agv.Orders.Accept.{base_nodes, extend_at, first_actions, stitched_order}
use vda_5050_lib_js.Agv.Orders.Refused.{IsExecutable}
use vda_5050_lib_js.Agv.Orders.Joins.{Extends, process_order-stitches}
use vda_5050_lib_js.Vda.{Action, Edge, Header, eq_AgvId, finished}

-- The first new node and the end of the base, and what becomes of the nodes with their actions.
nodes_agree :
    (m : Map ℕ (List Action)) (ns ms : List NodeObject) (es fs : List Edge)
    → Starts (map (node_of m) ns) es
    → Starts (map (node_of m) ms) fs
    → AreDistinct (ns ++ drop 1 ms)
    → (first : NodeObject) × (base_end : NodeObject) × (get_elem? ms 0 ≡ some first)
      × (last_base_end ns ≡ some base_end)
      × (map
            (node_of (
              Map.set base_end.identity
                ((node_of m base_end).actions ++ (node_of m first).actions)
                m))
            (stitched_nodes ns ms)
          ≡ extend_at
              (base_end_index (map (node_of m) ns))
              (first_actions (map (node_of m) ms))
              (base_nodes (map (node_of m) ns) ++ drop 1 (map (node_of m) ms)))
nodes_agree m [] ms es fs w v d = absurd w
nodes_agree m (o ∷ os) [] es fs w v d = absurd v
nodes_agree m (o ∷ os) (p ∷ ps) es fs (based, _, _) v d =
    (p, end_of o os, refl, last_base_end_lem o os based, stitched_nodes-agree m o p os ps based d)

module _ (k last : ℕ) (c : MasterController) (apart : k ≢ last) where
  abbrev old : OrderObject
  old = (c.caches last).combined_order

  abbrev new : OrderObject
  new = (c.caches k).combined_order

  -- The controller afterwards.
  abbrev stitched_at : NodeObject → NodeObject → MasterController
  stitched_at first base_end =
      let d = appended k last c first base_end in
      remove_order_state_cache last true (change k (take_over (d.caches last)) d)

  combined :
      (first base_end : NodeObject)
      → ((stitched_at first base_end).caches k).combined_order ≡ record new {
        nodes = stitched_nodes old.nodes new.nodes;
        edges = stitched_edges old.edges new.edges;
      }
  unfolding remove_order_state_cache
  combined first base_end =
      let self : (k == k) ≡ true = ==_refl k in
      let there : (k == last) ≡ false = ground arith in
      let back : (last == k) ≡ false = ground arith in simp (self, there, back)

  pub stitch-agrees :
      (h h' : Header)
      → IsWellFormed (as_order h c old)
      → IsWellFormed (as_order h' c new)
      → AreDistinct (old.nodes ++ drop 1 new.nodes)
      → (d : MasterController) × (stitch k last c ≡ done d)
        × (as_order h d (d.caches k).combined_order
            ≡ stitched_order (as_order h c old) (as_order h' c new))
  unfolding stitch stitched_order remove_order_state_cache
  stitch-agrees h h' w v distinct =
      let m = c.node_actions in
      let (first, base_end, e, f, agree) =
        nodes_agree m old.nodes new.nodes (as_order h c old).edges (as_order h' c new).edges w v
          distinct in
      let d = stitched_at first base_end in
      (
        d,
        ap (λ o. stitch_with k last c o (last_base_end old.nodes)) e
            ∙ ap (stitch_with k last c (some first)) f,
        ap (as_order h d) (combined first base_end) ∙ λ i. record {
          header = h;
          edges = stitched_edges-agree old.edges new.edges i;
          nodes = agree i;
          order_id = new.order_id;
          order_update_id = new.order_update_id;
          zone_set_id = new.zone_set_id;
        },
      )

-- An executable order that extends the active one, on a base that fits, is stitched to it by the
-- vehicle and by the master control, each of which holds the same two orders before, with no node
-- object twice: `_processOrder` returns, and so does the part of `_dispatchOrderState` that takes
-- over the cache of the active order; afterwards both hold the same combined order, node by node
-- with its actions.
pub stitching-Agrees :
    (env : Adapter) (v : Controller) (h h' : Header) (k last : ℕ) (c : MasterController)
    → k ≢ last
    → v.current_order ≡ some (as_order h c (c.caches last).combined_order)
    → IsWellFormed (as_order h c (c.caches last).combined_order)
    → AreDistinct ((c.caches last).combined_order.nodes ++ drop 1 (c.caches k).combined_order.nodes)
    → IsExecutable env (as_order h' c (c.caches k).combined_order) v
    → has_active_order v ≡ true
    → is_order_base_stitching v (as_order h' c (c.caches k).combined_order) ≡ some true
    → Extends
        (as_order h' c (c.caches k).combined_order)
        (as_order h c (c.caches last).combined_order)
    → (v' : Controller) × (d : MasterController) × (process_order env
          (conforming (as_order h' c (c.caches k).combined_order))
          v
        ≡ finished v')
      × (stitch k last c ≡ done d)
      × (v'.current_order ≡ some (as_order h d (d.caches k).combined_order))
stitching-Agrees env v h h' k last c apart here w distinct ok active fits extends =
    let current = as_order h c (c.caches last).combined_order in
    let order = as_order h' c (c.caches k).combined_order in
    let (v', ran, kept) =
      process_order-stitches env order current v ok active here w fits extends in
    let (d, taken, same) = stitch-agrees k last c apart h h' w ok.formed distinct in
    (v', d, ran, taken, kept ∙ ap some (sym same))
