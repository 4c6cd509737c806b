-- ===== src/Agv/Status/Fuel.antt =====
-- The fuel of `update_action_status` is enough: each inner call finds one instant action less.
use vda_5050_lib_js.Common.{
  Bool, Bool-cases, List, Option, [], arith, inl, inr, length, refl, suc, zero, ℕ, ◌<◌, ◌∷◌, ◌≡◌,
  ◌≤◌,
}
use vda_5050_lib_js.Vda.{Action, Order, is_ended}
use vda_5050_lib_js.Agv.Controller.{
  ActionContext, ActionScope, ActionStatusChangeInfo, Adapter, Controller, edge_scope,
  instant_scope, node_scope,
}
use vda_5050_lib_js.Agv.Traversal.{
  process_edge, process_edge_action, process_edge_actions, process_node_action,
  process_node_actions, traverse,
}
use vda_5050_lib_js.Agv.Status.{
  Update, enough_fuel, on_ended, on_instant_action_ended, process_instant_action_chunk,
  update_action_status, update_fueled, update_with,
}
use vda_5050_lib_js.Agv.Status.Keeps.{
  Holds, Keeps, Keeps-mono, or_throw-Keeps, process_edge-IsSteady, process_edge_action-IsSteady,
  process_edge_actions-IsSteady, process_node_action-IsSteady, process_node_actions-IsSteady,
  traverse-IsSteady,
}
use vda_5050_lib_js.Agv.Status.Apply.{apply_status}
use vda_5050_lib_js.Agv.Status.Inner.{Fits, process_instant_action_chunk-Keeps}
use vda_5050_lib_js.Agv.Status.Ended.{
  on_instant_action_ended-Keeps, on_instant_action_ended-empty, on_order_action_ended-IsSteady,
}

-- The cases of a node's and an edge's action keep any bound.
on_ended-Keeps :
    (env : Adapter) (update : Update) (context : ActionContext) (n : ℕ) (r : Option Order)
    (c : Controller)
    → Holds n r c
    → Keeps n r (on_instant_action_ended env update context.action c)
    → Keeps n r (on_ended env update context c)
unfolding on_ended
on_ended-Keeps env update context n r c k instant = go context.scope refl
  where
    go : (s : ActionScope) → context.scope ≡ s → Keeps n r (on_ended env update context c)
    go node_scope e =
        rw (e, on_ended)
          (or_throw-Keeps n r c context.node _ k (λ m.
            on_order_action_ended-IsSteady (process_node_actions m) (process_node_action m)
              (process_edge m) m.actions context.action (process_node_actions-IsSteady m)
              (process_node_action-IsSteady m) (process_edge-IsSteady m) n r c k))
    go edge_scope e =
        rw (e, on_ended)
          (or_throw-Keeps n r c context.edge _ k (λ m.
            on_order_action_ended-IsSteady (process_edge_actions m) (process_edge_action m)
              (traverse m) m.actions context.action (process_edge_actions-IsSteady m)
              (process_edge_action-IsSteady m) (traverse-IsSteady m) n r c k))
    go instant_scope e = rw (e, on_ended) instant

update_with-Keeps :
    (env : Adapter) (update : Update) (context : ActionContext) (change : ActionStatusChangeInfo)
    (n : ℕ) (r : Option Order) (c : Controller)
    → Holds n r c
    → Keeps n r (on_instant_action_ended env update context.action (apply_status context change c))
    → Keeps n r (update_with env update context change c)
unfolding update_with
update_with-Keeps env update context change n r c h instant =
    elim (Bool-cases (is_ended change.action_status)) [
      | inl e ↦
          simp e (on_ended-Keeps env update context n r (apply_status context change c) h instant)
      | inr e ↦ simp e h
    ]

empty_of_length {ℓ} : {A : Type ℓ} (xs : List A) → length xs ≤ 0 → xs ≡ []
empty_of_length [] h = refl
empty_of_length (x ∷ xs) h = absurd (omega arith)

fueled-Fits :
    (env : Adapter) (n fuel : ℕ) (r : Option Order) → n < fuel → Fits n r (update_fueled env fuel)
unfolding update_fueled apply_status
fueled-Fits env n zero r h context change c k = absurd (omega arith)
fueled-Fits env zero (suc fuel) r h context change c k =
    update_with-Keeps env (update_fueled env fuel) context change zero r c k (
      on_instant_action_ended-empty env (update_fueled env fuel) context.action r
        (apply_status context change c) (empty_of_length c.current_instant_actions k.0) k.1)
fueled-Fits env (suc n) (suc fuel) r h context change c k =
    update_with-Keeps env (update_fueled env fuel) context change (suc n) r c k (
      Keeps-mono n (suc n) r _ (omega arith) (
        on_instant_action_ended-Keeps env n r (update_fueled env fuel)
          (fueled-Fits env n fuel r (omega arith)) context.action (apply_status context change c)
          k))

-- With a fuel above the number of pending instant actions, `_updateActionStatus` comes to an end:
-- it returns or throws, never leaves more instant actions pending than before, and leaves the
-- current order alone.
pub update_action_status-Keeps :
    (env : Adapter) (context : ActionContext) (change : ActionStatusChangeInfo) (c : Controller)
    → Keeps
        (length c.current_instant_actions)
        c.current_order
        (update_action_status env context change c)
unfolding update_action_status
update_action_status-Keeps env context change c =
    fueled-Fits env (length c.current_instant_actions) (enough_fuel c) c.current_order (omega arith)
      context change c (omega arith, refl)

pub fueled_chunk-Keeps :
    (env : Adapter) (after : Option Action) (skip : Bool) (c : Controller)
    → Keeps
        (length c.current_instant_actions)
        c.current_order
        (process_instant_action_chunk env (update_fueled env (enough_fuel c)) after skip c)
fueled_chunk-Keeps env after skip c =
    process_instant_action_chunk-Keeps env (length c.current_instant_actions) c.current_order
      (update_fueled env (enough_fuel c))
      (fueled-Fits env (length c.current_instant_actions) (enough_fuel c) c.current_order
        (omega arith))
      after skip c (omega arith, refl)
