-- ===== src/Master/Stitching/Agreed.antt =====
-- The master's view of an order that is stitched to an active one, and the vehicle's:
-- `_dispatchOrderState` of src/controller/master-controller.ts and `_processOrder` of src/controller/
-- agv-controller.ts.
use mathlib.Core.Path.{subst⁻¹}
use mathlib.Core.List.{map-append}
use mathlib.Core.Option
use vda_5050_lib_js.Common.Map
use vda_5050_lib_js.Common.{
  All, Bool-cases, List, [], ap, eq_Bool, eq_Option, eq_String, eq_ℕ, if◌then◌else◌, inl, inr,
  length, map, refl, some, sym, take_while, true, ℕ, ◌++◌, ◌∙◌, ◌∷◌, ◌≡◌, ◌≢◌,
}
use vda_5050_lib_js.Common.Map.{Map, get-set_ne, get-set_self}
use vda_5050_lib_js.Master.Controller.{EdgeObject, MasterController, NodeObject, OrderObject}
use vda_5050_lib_js.Master.Stitching.{
  base_of, edge_released, node_released, stitched_edges, stitched_nodes,
}
use vda_5050_lib_js.Master.Stitching.Bases.{
  base_of-take_while, end_of, end_of-All, node_of, take_while-cons, take_while-map,
}
use vda_5050_lib_js.Agv.Queries.{base_end_index}
use vda_5050_lib_js.Agv.Orders.Accept.{base_edges, base_nodes, extend_at}
use vda_5050_lib_js.Vda.{Action, Header, Node, Order, eq_AgvId}
use vda_5050_lib_js.Agv.Orders.Bases.{base_end_index_lem}

-- No two nodes are one object.
abbrev pub AreDistinct : List NodeObject → Type 0
AreDistinct [] = Unit
AreDistinct (x ∷ xs) = All (λ y. y.identity ≢ x.identity) xs × AreDistinct xs

All-append_right : (P : NodeObject → Type 0) (xs ys : List NodeObject) → All P (xs ++ ys) → All P ys
All-append_right P [] ys h = h
All-append_right P (x ∷ xs) ys (h, t) = All-append_right P xs ys t

All-append_left : (P : NodeObject → Type 0) (xs ys : List NodeObject) → All P (xs ++ ys) → All P xs
All-append_left P [] ys h = tt
All-append_left P (x ∷ xs) ys (h, t) = (h, All-append_left P xs ys t)

AreDistinct-append :
    (xs ys : List NodeObject)
    → AreDistinct (xs ++ ys)
    → AreDistinct xs × All (λ x. All (λ y. y.identity ≢ x.identity) ys) xs
AreDistinct-append [] ys h = (tt, tt)
AreDistinct-append (x ∷ xs) ys (h, t) =
    let (a, b) = AreDistinct-append xs ys t in
    (
      (All-append_left (λ y. y.identity ≢ x.identity) xs ys h, a),
      (All-append_right (λ y. y.identity ≢ x.identity) xs ys h, b),
    )

map_same :
    (f g : NodeObject → Node) (xs : List NodeObject) → All (λ x. f x ≡ g x) xs → map f xs ≡ map g xs
map_same f g [] h = refl
map_same f g (x ∷ xs) (e, h) = λ i. e i ∷ map_same f g xs h i

All-map :
    (P Q : NodeObject → Type 0) (xs : List NodeObject)
    → ((x : NodeObject) → P x → Q x)
    → All P xs
    → All Q xs
All-map P Q [] f h = tt
All-map P Q (x ∷ xs) f (h, t) = (f x h, All-map P Q xs f t)

module _ (m : Map ℕ (List Action)) (added : List Action) (g : NodeObject → Node) (end : NodeObject)
    (grown : g end ≡ record (node_of m end) { actions = (node_of m end).actions ++ added })
    (as_before : (x : NodeObject) → x.identity ≢ end.identity → g x ≡ node_of m x) where
  end_here :
      (o : NodeObject) (ms : List Node)
      → o ≡ end
      → record (node_of m o) { actions = (node_of m o).actions ++ added } ∷ ms ≡ g o ∷ ms
  end_here o ms q = rw q (ap (λ n. n ∷ ms) (sym grown))

  -- The end of the base with its new actions, and the others as before.
  extended :
      (o : NodeObject) (os : List NodeObject) (ms : List Node)
      → end_of o os ≡ end
      → AreDistinct (o ∷ os)
      → extend_at
          (some (length (base_nodes (map (node_of m) os))))
          added
          (node_of m o ∷ (base_nodes (map (node_of m) os) ++ ms))
        ≡ map g (o ∷ take_while node_released os) ++ ms
  unfolding extend_at
  extended o [] ms q h = end_here o ms q
  extended o (p ∷ ps) ms q ((d, h), t) = elim (Bool-cases p.node.released) [
    | inr ahead ↦ simp ahead (end_here o ms (simp ahead at q))
    | inl based ↦
        let later : end_of p ps ≡ end = simp based at q in
        let other : (end_of p ps).identity ≢ o.identity =
          end_of-All (λ y. y.identity ≢ o.identity) p ps d h in
        let same = as_before o (λ i. other (ap (λ (x : NodeObject). x.identity) later ∙ sym i)) in
        let rest = extended p ps ms later t in
        subst⁻¹
          (λ b.
            extend_at
              (some (length (if b then node_of m p ∷ base_nodes (map (node_of m) ps) else [])))
              added
              (node_of m o
                ∷ ((if b then node_of m p ∷ base_nodes (map (node_of m) ps) else []) ++ ms))
            ≡ g o ∷ (map g (if b then p ∷ take_while node_released ps else []) ++ ms))
          based (λ i. sym same i ∷ rest i)
  ]

-- The order that the controller sees, as a message with this header.
abbrev pub as_order : Header → MasterController → OrderObject → Order
as_order h c o = record {
  header = h;
  edges = map (λ e. e.edge) o.edges;
  nodes = map (node_of c.node_actions) o.nodes;
  order_id = o.order_id;
  order_update_id = o.order_update_id;
  zone_set_id = o.zone_set_id;
}

pub stitched_edges-agree :
    (es fs : List EdgeObject)
    → map (λ e. e.edge) (stitched_edges es fs)
      ≡ base_edges (map (λ e. e.edge) es) ++ map (λ e. e.edge) fs
unfolding stitched_edges
stitched_edges-agree es fs =
    map-append (λ e. e.edge) (base_of edge_released es) fs
    ∙ ap (λ l. map (λ e. e.edge) l ++ map (λ e. e.edge) fs) (base_of-take_while edge_released es)
    ∙ ap (λ l. l ++ map (λ e. e.edge) fs)
        (sym (take_while-map (λ (e : EdgeObject). e.edge) (λ e. e.released) es))

module _ (m : Map ℕ (List Action)) (o p : NodeObject) (os ps : List NodeObject)
    (based : o.node.released ≡ true) (distinct : AreDistinct ((o ∷ os) ++ ps)) where
  abbrev base_end : NodeObject
  base_end = end_of o os

  abbrev grown_actions : Map ℕ (List Action)
  grown_actions =
      Map.set base_end.identity ((node_of m base_end).actions ++ (node_of m p).actions) m

  grown_end : node_of grown_actions base_end ≡ record (node_of m base_end) {
    actions = (node_of m base_end).actions ++ (node_of m p).actions;
  }
  grown_end =
      ap (λ actions. record base_end.node { actions = Option.get_or actions base_end.node.actions })
        (Map.get-set_self base_end.identity ((node_of m base_end).actions ++ (node_of m p).actions)
          m)

  others_as_before :
      (x : NodeObject) → x.identity ≢ base_end.identity → node_of grown_actions x ≡ node_of m x
  others_as_before x d =
      ap (λ actions. record x.node { actions = Option.get_or actions x.node.actions })
        (Map.get-set_ne base_end.identity x.identity
          ((node_of m base_end).actions ++ (node_of m p).actions) m (λ e. d (sym e)))

  pub stitched_nodes-agree :
      map (node_of grown_actions) (stitched_nodes (o ∷ os) (p ∷ ps))
      ≡ extend_at
          (base_end_index (map (node_of m) (o ∷ os)))
          (node_of m p).actions
          (base_nodes (map (node_of m) (o ∷ os)) ++ map (node_of m) ps)
  unfolding stitched_nodes
  stitched_nodes-agree =
      let (apart, others) = AreDistinct-append (o ∷ os) ps distinct in
      let g = node_of grown_actions in
      let rest : map g ps ≡ map (node_of m) ps = map_same g (node_of m) ps (
        All-map (λ x. x.identity ≢ base_end.identity) (λ x. g x ≡ node_of m x) ps others_as_before
          (end_of-All (λ z. All (λ y. y.identity ≢ z.identity) ps) o os others.0 others.1)) in
      let before = map (node_of m) os in
      let ms = map (node_of m) ps in
      let added = (node_of m p).actions in
      ap (λ l. map g (l ++ ps))
        (base_of-take_while node_released (o ∷ os) ∙ take_while-cons node_released o os based)
      ∙ map-append g (o ∷ take_while node_released os) ps
      ∙ ap (λ l. map g (o ∷ take_while node_released os) ++ l) rest
      ∙ sym (
          ap (λ i. extend_at i added (base_nodes (node_of m o ∷ before) ++ ms))
            (base_end_index_lem (node_of m o) before based)
          ∙ ap (λ l. extend_at (some (length (base_nodes before))) added (l ++ ms))
              (take_while-cons (λ n. n.released) (node_of m o) before based)
          ∙ extended m added g base_end grown_end others_as_before o os ms refl apart)
