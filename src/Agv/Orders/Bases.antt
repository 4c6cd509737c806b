-- ===== src/Agv/Orders/Bases.antt =====
-- Where the base of an order ends, and the route up to there: `_isOrderBaseStitching` of
-- src/controller/agv-controller.ts.
use vda_5050_lib_js.Common.{
  Bool-cases, List, Option-cases, [], arith, find_index?, get_elem?, inl, inr, length, none, not,
  refl, some, sym, true, ℕ, ◌%◌, ◌++◌, ◌∙◌, ◌∷◌, ◌≡◌,
}
use vda_5050_lib_js.Vda.{Action, Edge, Node}
use vda_5050_lib_js.Agv.Queries.{base_end, base_end_index}
use vda_5050_lib_js.Agv.Constraints.Route.{IsRoute, Leg, Starts}
use vda_5050_lib_js.Agv.Orders.Accept.{base_edges, base_nodes, extend_at}

-- A node that may differ in its actions only.
abbrev IsSame : Node → Node → Type 0
IsSame n m = (m.node_id ≡ n.node_id) × (m.sequence_id ≡ n.sequence_id) × (m.released ≡ n.released)

Leg-IsSame : (n m : Node) (e : Edge) (m' : Node) → Leg n e m → IsSame m m' → Leg n e m'
Leg-IsSame n m e m' l (i, s, r) = record {
  edge_id = l.edge_id;
  node_id = s ∙ l.node_id;
  start = l.start;
  end = l.end ∙ sym i;
  based = l.based ∙ sym r;
  falls = λ h. r ∙ l.falls h;
}

IsRoute-IsSame :
    (n m : Node) (ns : List Node) (es : List Edge) → IsSame n m → IsRoute n ns es → IsRoute m ns es
IsRoute-IsSame n m [] [] s r = tt
IsRoute-IsSame n m [] (e ∷ es) s r = r
IsRoute-IsSame n m (k ∷ ns) [] s r = r
IsRoute-IsSame n m (k ∷ ns) (e ∷ es) (i, s, q) (l, r) = (
  record {
    edge_id = ground arith;
    node_id = ground arith;
    start = l.start ∙ sym i;
    end = l.end;
    based = l.based;
    falls = λ h. l.falls (sym q ∙ h);
  },
  r,
)

-- Nodes that form a route with the edges, from one like `n` on.
abbrev Routes : Node → List Node → List Edge → Type 0
Routes n [] es = ⊥
Routes n (m ∷ ms) es = IsSame n m × IsRoute m ms es

prepend :
    (n m : Node) (e : Edge) (ms : List Node) (es : List Edge)
    → Leg n e m
    → Routes m ms es
    → IsRoute n ms (e ∷ es)
prepend n m e [] es l r = absurd r
prepend n m e (k ∷ ms) es l (s, r) = (Leg-IsSame n m e k l s, r)

-- The base ends where the first node that is not released stands, or at the last node.
base_nodes_all : (ns : List Node) → find_index? (λ n. not n.released) ns ≡ none → base_nodes ns ≡ ns
base_nodes_all [] h = refl
base_nodes_all (n ∷ ns) h = ground (arith, base_nodes_all ns)

length-base_nodes :
    (ns : List Node) (i : ℕ)
    → find_index? (λ n. not n.released) ns ≡ some i
    → length (base_nodes ns) ≡ i
length-base_nodes [] i h = cc
length-base_nodes (n ∷ ns) i h = elim (Option-cases (find_index? (λ m. not m.released) ns)) [
  | inl e ↦ ground arith
  | inr (j, e) ↦ ground (arith, length-base_nodes ns j e)
]

pub base_end_index_lem :
    (n : Node) (ns : List Node)
    → n.released ≡ true
    → base_end_index (n ∷ ns) ≡ some (length (base_nodes ns))
unfolding base_end_index
base_end_index_lem n ns h = elim (Option-cases (find_index? (λ m. not m.released) ns)) [
  | inl e ↦ ground (arith, base_nodes_all ns e)
  | inr (i, e) ↦ ground (arith, length-base_nodes ns i e)
]

module _ (m₀ : Node) (ms : List Node) (fs : List Edge) (actions : List Action) where
  abbrev extended : Node → List Node → List Node
  extended n ns = extend_at (some (length (base_nodes ns))) actions (n ∷ (base_nodes ns ++ ms))

  stitched_end :
      (n end : Node)
      → some n ≡ some end
      → end.node_id ≡ m₀.node_id
      → end.sequence_id ≡ m₀.sequence_id
      → n.released ≡ true
      → m₀.released ≡ true
      → IsRoute m₀ ms fs
      → IsRoute (record n { actions = n.actions ++ actions }) ms fs
  stitched_end n end e i s h k r =
      IsRoute-IsSame m₀ (record n { actions = n.actions ++ actions }) ms fs
        (ground arith, ground arith, ground arith) r

  pub stitched_route :
      (n : Node) (ns : List Node) (es : List Edge) (end : Node)
      → n.released ≡ true
      → IsRoute n ns es
      → get_elem? (n ∷ ns) (length (base_nodes ns)) ≡ some end
      → end.node_id ≡ m₀.node_id
      → end.sequence_id ≡ m₀.sequence_id
      → m₀.released ≡ true
      → IsRoute m₀ ms fs
      → Routes n (extended n ns) (base_edges es ++ fs)
  unfolding extend_at
  stitched_route n [] [] end h r e i s k q = ((refl, refl, refl), stitched_end n end e i s h k q)
  stitched_route n [] (f ∷ es) end h r e i s k q = absurd r
  stitched_route n (m ∷ ns) [] end h r e i s k q = absurd r
  stitched_route n (m ∷ ns) (f ∷ es) end h (l, r) e i s k q = elim (Bool-cases m.released) [
    | inl based ↦
        simp (l.based, based)
          (
            (refl, refl, refl),
            prepend n m f (extended m ns) (base_edges es ++ fs) l
                (stitched_route m ns es end based r (simp based at e) i s k q),
          )
    | inr ahead ↦
        simp (l.based, ahead) ((refl, refl, refl), stitched_end n end (simp ahead at e) i s h k q)
  ]

pub base_end_lem :
    (n : Node) (ns : List Node)
    → n.released ≡ true
    → base_end (n ∷ ns) ≡ get_elem? (n ∷ ns) (length (base_nodes ns))
unfolding base_end
base_end_lem n ns h = ground (arith, base_end_index_lem n ns h)

base_in_range :
    (n : Node) (ns : List Node)
    → (end : Node) × (get_elem? (n ∷ ns) (length (base_nodes ns)) ≡ some end)
base_in_range n [] = (n, refl)
base_in_range n (m ∷ ns) = elim (Bool-cases m.released) [
  | inl e ↦ let (end, k) = base_in_range m ns in (end, simp e k)
  | inr e ↦ (n, simp e refl)
]

-- The base of a well-formed order has an end.
pub base_end-Starts :
    (nodes : List Node) (es : List Edge)
    → Starts nodes es
    → (end : Node) × (base_end nodes ≡ some end)
base_end-Starts [] es w = absurd w
base_end-Starts (n ∷ nodes) es (h, k, r) =
    let (end, found) = base_in_range n nodes in (end, base_end_lem n nodes h ∙ found)

pub Routes-Starts :
    (n : Node) (ns : List Node) (es : List Edge)
    → n.released ≡ true
    → n.sequence_id % 2 ≡ 0
    → Routes n ns es
    → Starts ns es
Routes-Starts n [] es h k r = absurd r
Routes-Starts n (m ∷ ns) es h k ((i, s, q), r) = (q ∙ h, rw s k, r)
