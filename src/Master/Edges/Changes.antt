-- ===== src/Master/Edges/Changes.antt =====
-- What is told while an edge is traversed: `_updateEdgeStateChanges` of src/controller/
-- master-controller.ts.
use vda_5050_lib_js.Common.{
  ==_refl, Bool, Bool-cases, Option, ap, eq_Bool, eq_Option, eq_String, eq_ℕ, false, if◌then◌else◌,
  inl, inr, refl, some, true, ℕ, ◌+◌, ◌∙◌, ◌∷◌, ◌≡◌, ◌⊎◌,
}
use vda_5050_lib_js.Vda.{Json, State, eq_AgvId}
use vda_5050_lib_js.Master.Controller.{
  EdgeObject, EdgeStateChanges, EdgeStatus, Environment, Event, MasterController, NodeObject,
  OrderEventHandler, OrderStateCache, change, edge_traversing, emit, emit_if,
}
use vda_5050_lib_js.Master.Edges.{
  count_invocation, edge_status, has_changes, keep_status, new_deltas, overwritten, report_changes,
  update_edge_state_changes, update_from,
}
use vda_5050_lib_js.Master.Edges.Agreement.{
  Agree, Agree-unchanged, AreDeltas, new_deltas-AreDeltas, overwritten-Agree, unchanged-Agree,
}

module _ (env : Environment) (k : ℕ) (edge : EdgeObject) (start end : Option NodeObject)
    (state : State) (c : MasterController) (old : EdgeStatus)
    (kept : (c.caches k).last_edge_state_changes ≡ some old) where
  abbrev changes : EdgeStateChanges
  changes = new_deltas env old (edge_status state)

  abbrev reported : MasterController
  reported =
      report_changes k edge start end changes state
        (change k (keep_status (overwritten changes old)) c)

  update_lem :
      update_edge_state_changes env k edge start end state c
      ≡ (if has_changes changes then reported else c)
  unfolding update_edge_state_changes
  update_lem = ap (update_from env k edge start end state c) kept

-- After the report the new values are kept, and the handler has been told of those that changed.
pub record IsTold (env : Environment) (k : ℕ) (edge : EdgeObject) (start end : Option NodeObject)
    (state : State) (old : EdgeStatus) (c d : MasterController) : Type 0 where
  pub invocations :
      (d.caches k).edge_state_change_invocations ≡ (c.caches k).edge_state_change_invocations + 1
  pub event :
      (told : EdgeStateChanges) × AreDeltas env old (edge_status state) told
      × (d.events
          ≡ edge_traversing k edge start end told
              ((c.caches k).edge_state_change_invocations + 1)
              state
            ∷ c.events)
  pub kept :
      (s : EdgeStatus) × ((d.caches k).last_edge_state_changes ≡ some s)
      × Agree env s (edge_status state)

change_self :
    (k : ℕ) (f : OrderStateCache → OrderStateCache) (c : MasterController)
    → (change k f c).caches k ≡ f (c.caches k)
change_self k f c = rw (==_refl k) refl

emits : {b : Bool} (e : Event) (c : MasterController) → b ≡ true → emit_if b e c ≡ emit e c
emits e c h = rw h refl

module _ (env : Environment) (k : ℕ) (edge : EdgeObject) (start end : Option NodeObject)
    (state : State) (old : EdgeStatus) (c : MasterController)
    (on : (c.caches k).event_handler.on_edge_traversing ≡ true)
    (reflexive : (j : Json) → env.same_number j j ≡ true) where
  abbrev deltas : EdgeStateChanges
  deltas = new_deltas env old (edge_status state)

  abbrev saved : MasterController
  saved = change k (keep_status (overwritten deltas old)) c

  abbrev counted : MasterController
  counted = change k count_invocation saved

  counted_cache :
      counted.caches k ≡ count_invocation (keep_status (overwritten deltas old) (c.caches k))
  counted_cache =
      change_self k count_invocation saved
      ∙ ap count_invocation (change_self k (keep_status (overwritten deltas old)) c)

  abbrev the_event : Event
  the_event =
      edge_traversing k edge start end deltas (counted.caches k).edge_state_change_invocations state

  reported_lem : report_changes k edge start end deltas state saved ≡ emit the_event counted
  unfolding report_changes
  reported_lem = emits the_event counted (
      ap (λ x. OrderEventHandler.on_edge_traversing (OrderStateCache.event_handler x))
        (change_self k (keep_status (overwritten deltas old)) c)
      ∙ on)

  emitted-IsTold : IsTold env k edge start end state old c (emit the_event counted)
  emitted-IsTold = record {
    invocations = ap OrderStateCache.edge_state_change_invocations counted_cache;
    event = (
      deltas,
      new_deltas-AreDeltas env old (edge_status state),
      ap (λ n. edge_traversing k edge start end deltas n state ∷ c.events)
          (ap OrderStateCache.edge_state_change_invocations counted_cache),
    );
    kept = (
      overwritten deltas old,
      ap OrderStateCache.last_edge_state_changes counted_cache,
      overwritten-Agree env old (edge_status state) reflexive,
    );
  }

-- While an edge is traversed, a state whose values agree with those told last changes nothing. Any
-- other state is told to the order's handler once, with exactly the values that differ and a count
-- that is one higher, and the values told last then agree with it. Comparing a number with itself
-- holds.
pub edge_changes-IsTold :
    (env : Environment) (k : ℕ) (edge : EdgeObject) (start end : Option NodeObject) (state : State)
    (old : EdgeStatus) (c : MasterController)
    → (c.caches k).last_edge_state_changes ≡ some old
    → (c.caches k).event_handler.on_edge_traversing ≡ true
    → ((j : Json) → env.same_number j j ≡ true)
    → (Agree env old (edge_status state)
        × (update_edge_state_changes env k edge start end state c ≡ c))
      ⊎ ((¬ Agree env old (edge_status state))
          × IsTold env k edge start end state old c
              (update_edge_state_changes env k edge start end state c))
edge_changes-IsTold env k edge start end state old c kept on reflexive =
    let lem = update_lem env k edge start end state c old kept in
    let agreement = Agree-unchanged env old (edge_status state) in
    elim (Bool-cases (has_changes (new_deltas env old (edge_status state)))) [
      | inr e ↦ inl (unchanged-Agree env old (edge_status state) e, lem ∙ unchanged _ _ e)
      | inl e ↦ inr (
        λ agree. let f = agreement agree in absurd (cc),
        rw (lem ∙ changed _ _ e ∙ reported_lem env k edge start end state old c on reflexive)
            (emitted-IsTold env k edge start end state old c on reflexive),
      )
    ]
  where
    unchanged : {b : Bool} (x y : MasterController) → b ≡ false → (if b then x else y) ≡ y
    unchanged x y e = rw e refl

    changed : {b : Bool} (x y : MasterController) → b ≡ true → (if b then x else y) ≡ x
    changed x y e = rw e refl
