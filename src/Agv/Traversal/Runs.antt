-- ===== src/Agv/Traversal/Runs.antt =====
-- The choice of the next actions by indices, against a description of it by lists: the run of
-- actions that are not hard, or one hard action.
use mathlib.Core.Option
-- The actions behind the last one that was run: a hard one is run alone, others up to the next
-- hard one.
use vda_5050_lib_js.Common.{
  Bool, Bool-cases, List, Option, [], any, ap, arith, drop, eq_Bool, eq_Option, eq_String, eq_ℕ,
  false, find_index?, get_elem?, if◌then◌else◌, inl, inr, none, refl, some, suc, sym, take_while,
  true, ℕ, ◌+◌, ◌==◌, ◌∙◌, ◌∷◌, ◌≡◌,
}
use vda_5050_lib_js.Vda.{Action, Edge, Node, eq_AgvId, is_hard, is_soft}
use vda_5050_lib_js.Agv.Controller.{Controller, Outcome}
use vda_5050_lib_js.Agv.Chunk.{Chunk, after_start, find_from, index_of, next_chunk, slice}
use vda_5050_lib_js.Agv.Traversal.{
  process_chunk, process_each, process_edge, process_edge_action, process_edge_actions,
  process_node_action, process_node_actions, traverse,
}
use vda_5050_lib_js.Agv.Traversal.Retains.{get_elem?-drop}
use vda_5050_lib_js.Agv.Traversal.Indices.{
  index_in_run, is_free, left_over, stop_driving-lem, stop_index-lem, take_from_start,
}

unfoldable pub run_next :
    (Action → Bool → Controller → Outcome)
    → (Controller → Outcome)
    → List Action
    → Controller
    → Outcome
unfolding is_hard is_soft process_each
run_next process otherwise [] c = otherwise c
run_next process otherwise (a ∷ rest) c =
    let run = take_while is_free (a ∷ rest) in
    if is_hard a.blocking_type
    then process a true c
    else process_each (λ b. process b (any (λ k. is_soft k.blocking_type) run)) run c

module _ (process : Action → Bool → Controller → Outcome) (otherwise : Controller → Outcome)
    (k : Chunk) (actions : List Action) (c : Controller) where
  abbrev run_of : List Action → Outcome
  run_of rest =
      let run = take_while is_free rest in
      process_each (λ b. process b (any (λ a. is_soft a.blocking_type) run)) run c

  run_next_free :
      (a : Action) (rest : List Action)
      → is_hard a.blocking_type ≡ false
      → run_next process otherwise (a ∷ rest) c ≡ run_of (a ∷ rest)
  unfolding run_next
  run_next_free a rest h = ap (λ b. if b then process a true c else run_of (a ∷ rest)) h

  each_in_run :
      (rest : List Action)
      → drop k.start actions ≡ rest
      → k.stop_index ≡ k.start + index_in_run rest
      → k.stop_driving ≡ any (λ a. is_soft a.blocking_type) (take_while is_free rest)
      → process_each (λ b. process b k.stop_driving) (slice k.start k.stop_index actions) c
        ≡ run_of rest
  each_in_run rest e u w =
      ap (λ n. process_each (λ b. process b k.stop_driving) (slice k.start n actions) c) u
      ∙ ap (λ l. process_each (λ b. process b k.stop_driving) l c)
          (take_from_start k.start actions rest e)
      ∙ ap (λ s. process_each (λ b. process b s) (take_while is_free rest) c) w

  chunk_run :
      (rest : List Action)
      → drop k.start actions ≡ rest
      → k.stop_index ≡ k.start + index_in_run rest
      → k.hard_index
        ≡ Option.map (λ i. k.start + i) (find_index? (λ a. is_hard a.blocking_type) rest)
      → k.stop_driving ≡ any (λ a. is_soft a.blocking_type) (take_while is_free rest)
      → process_chunk process otherwise k actions c ≡ run_next process otherwise rest c
  unfolding process_chunk run_next
  chunk_run [] e u v w =
      let at_start : (k.stop_index == k.start) ≡ true = ground arith in simp (at_start, v) refl
  chunk_run (a ∷ rest) e u v w = elim (Bool-cases (is_hard a.blocking_type)) [
    | inl h ↦
        let at_start : (k.stop_index == k.start) ≡ true = ground arith in
        let first : k.hard_index ≡ some (k.start + 0) = v ∙ ground arith in
        let here : get_elem? actions (k.start + 0) ≡ some a =
          sym (get_elem?-drop k.start 0 actions) ∙ ap (λ l. get_elem? l 0) e in
        simp (at_start, first, here, h) refl
    | inr h ↦
        let apart : (k.stop_index == k.start) ≡ false = ground arith in
        simp apart (each_in_run (a ∷ rest) e u w ∙ sym (run_next_free a rest h))
  ]

-- The actions behind the first one with the id of the given one, or all where there is none.
abbrev pub behind_id : Action → List Action → Option (List Action)
behind_id a [] = none
behind_id a (b ∷ actions) = if b.action_id == a.action_id then some actions else behind_id a actions

abbrev pub behind : Option Action → List Action → List Action
behind none actions = actions
behind (some a) actions = Option.get_or (behind_id a actions) actions

-- Dropped up to an index and the action there, or none where there is no index.
abbrev dropped : List Action → Option ℕ → Option (List Action)
dropped actions none = none
dropped actions (some i) = some (drop (suc i) actions)

dropped-suc :
    (a : Action) (actions : List Action) (o : Option ℕ)
    → dropped (a ∷ actions) (Option.map suc o) ≡ dropped actions o
dropped-suc a actions none = refl
dropped-suc a actions (some i) = refl

dropped-index_of :
    (a : Action) (actions : List Action)
    → dropped actions (index_of a actions) ≡ behind_id a actions
unfolding index_of
dropped-index_of a [] = refl
dropped-index_of a (b ∷ actions) = elim (Bool-cases (b.action_id == a.action_id)) [
  | inl e ↦ simp e refl
  | inr e ↦ simp e (dropped-suc b actions (index_of a actions) ∙ dropped-index_of a actions)
]

drop-after :
    (actions : List Action) (o : Option ℕ)
    → drop (elim o [ none ↦ 0 | some i ↦ suc i ]) actions
      ≡ Option.get_or (dropped actions o) actions
drop-after actions none = refl
drop-after actions (some i) = refl

drop-after_start :
    (after : Option Action) (actions : List Action)
    → drop (after_start after actions) actions ≡ behind after actions
drop-after_start none actions = refl
drop-after_start (some a) actions =
    drop-after actions (index_of a actions)
    ∙ ap (λ o. Option.get_or o actions) (dropped-index_of a actions)

-- The choice by indices runs exactly the run of actions behind the given one that are not hard, or
-- the one hard action there; with `stop_driving` if one of them is soft or hard.
chunk_run_lem :
    (process : Action → Bool → Controller → Outcome) (otherwise : Controller → Outcome)
    (after : Option Action) (actions : List Action) (c : Controller)
    → process_chunk process otherwise (next_chunk after actions) actions c
      ≡ run_next process otherwise (behind after actions) c
unfolding next_chunk find_from
chunk_run_lem process otherwise after actions c =
    chunk_run process otherwise (next_chunk after actions) actions c (left_over after actions) refl
      (stop_index-lem after actions) refl (stop_driving-lem after actions)
    ∙ ap (λ rest. run_next process otherwise rest c) (drop-after_start after actions)

-- `_processNodeActions` and `_processEdgeActions` choose what to execute by indices. They execute
-- exactly the actions behind the first one with the given id, all of them without one, up to the
-- next hard one, all at once, or that hard one alone if it is the next; the vehicle stops if one of
-- them is soft or hard. Only when no action is left, the trailing edge is processed, or the edge
-- traversed.
pub process_actions-runs :
    (node : Node) (edge : Edge) (after : Option Action) (c : Controller)
    → (process_node_actions node after c
        ≡ run_next (process_node_action node) (process_edge node) (behind after node.actions) c)
      × (process_edge_actions edge after c
          ≡ run_next (process_edge_action edge) (traverse edge) (behind after edge.actions) c)
unfolding process_node_actions process_edge_actions
process_actions-runs node edge after c = (
  chunk_run_lem (process_node_action node) (process_edge node) after node.actions c,
  chunk_run_lem (process_edge_action edge) (traverse edge) after edge.actions c,
)
