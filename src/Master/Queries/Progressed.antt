-- ===== src/Master/Queries/Progressed.antt =====
-- When an order counts as processed: `_isOrderProcessed` of src/controller/master-controller.ts.
use vda_5050_lib_js.Common.Map
use vda_5050_lib_js.Common.{
  All, Bool, List, Option, String, [], all, arith, eq_Bool, eq_Option, eq_String, eq_ℕ, false,
  if◌then◌else◌, none, not, refl, some, true, ◌&&◌, ◌↔◌, ◌∷◌, ◌≡◌,
}
use vda_5050_lib_js.Vda.{ActionState, EdgeState, NodeState, State, eq_AgvId, is_ended}
use vda_5050_lib_js.Common.Map.{Map}
use vda_5050_lib_js.Master.Controller.{MappedAction, OrderStateCache}
use vda_5050_lib_js.Master.Queries.{
  Progress, all_actions_ended, ended, is_empty, is_order_processed, processed, processed_active,
  unprocessed,
}

-- The last state of every action of the order has ended it.
abbrev pub ActionsEnded : OrderStateCache → Type 0
ActionsEnded cache =
    All
      (λ (b : String × MappedAction).
        (s : ActionState) × (Map.get b.1.action.action_id cache.last_action_states ≡ some s)
        × (is_ended s.action_status ≡ true))
      cache.mapped_actions

-- Nothing is left of the order; or nothing but the horizon is.
abbrev pub IsDone : State → Type 0
IsDone state = (state.node_states ≡ []) × (state.edge_states ≡ [])

abbrev pub IsAtHorizon : State → Type 0
IsAtHorizon state =
    All (λ s. NodeState.released s ≡ false) state.node_states
    × All (λ s. EdgeState.released s ≡ false) state.edge_states

ended_iff :
    (o : Option ActionState)
    → (ended o ≡ true) ↔ ((s : ActionState) × (o ≡ some s) × (is_ended s.action_status ≡ true))
ended_iff none = (λ h. cc, λ h. absurd (ground arith))
ended_iff (some s) = (λ h. (s, refl, h), λ (t, e, h). let same : s ≡ t = cc in rw same h)

all_iff {ℓ κ} :
    {A : Type ℓ} (p : A → Bool) (P : A → Type κ)
    → ((x : A) → (p x ≡ true) ↔ P x)
    → (xs : List A) → (all p xs ≡ true) ↔ All P xs
all_iff p P h [] = (λ _. tt, λ _. refl)
all_iff p P h (x ∷ xs) = (
  λ e. let (a, b) = both (p x) (all p xs) e in ((h x).0 a, (all_iff p P h xs).0 b),
  λ (a, b). rw ((h x).1 a) ((all_iff p P h xs).1 b),
)
  where
    both : (a b : Bool) → (a && b) ≡ true → (a ≡ true) × (b ≡ true)
    both true b e = (refl, e)
    both false b e = cc

is_empty_iff {ℓ} : {A : Type ℓ} (xs : List A) → (is_empty xs ≡ true) ↔ (xs ≡ [])
is_empty_iff [] = (λ _. refl, λ _. refl)
is_empty_iff (x ∷ xs) = (λ h. cc, λ h. cc)

not_iff : (b : Bool) → (not b ≡ true) ↔ (b ≡ false)
not_iff true = (λ h. cc, λ h. cc)
not_iff false = (λ _. refl, λ _. refl)

both_iff {ℓ κ} :
    {P : Type ℓ} {Q : Type κ} (a b : Bool)
    → (a ≡ true) ↔ P
    → (b ≡ true) ↔ Q
    → ((a && b) ≡ true) ↔ (P × Q)
both_iff true b p q = (λ e. (p.0 refl, q.0 e), λ (x, y). q.1 y)
both_iff false b p q = (λ e. cc, λ (x, y). p.1 x)

IsDone-iff :
    (state : State)
    → ((is_empty state.node_states && is_empty state.edge_states) ≡ true) ↔ IsDone state
IsDone-iff state =
    both_iff (is_empty state.node_states) (is_empty state.edge_states)
      (is_empty_iff state.node_states) (is_empty_iff state.edge_states)

IsAtHorizon-iff :
    (state : State)
    → ((all (λ s. not (NodeState.released s)) state.node_states
          && all (λ s. not (EdgeState.released s)) state.edge_states)
        ≡ true)
      ↔ IsAtHorizon state
IsAtHorizon-iff state =
    both_iff _ _
      (all_iff (λ s. not (NodeState.released s)) _ (λ s. not_iff (NodeState.released s))
        state.node_states)
      (all_iff (λ s. not (EdgeState.released s)) _ (λ s. not_iff (EdgeState.released s))
        state.edge_states)

ActionsEnded-iff :
    (cache : OrderStateCache)
    → (all_actions_ended cache.last_action_states cache.mapped_actions ≡ true) ↔ ActionsEnded cache
ActionsEnded-iff cache =
    all_iff _ _ (λ b. ended_iff (Map.get b.1.action.action_id cache.last_action_states))
      cache.mapped_actions

abbrev pick : Bool → Bool → Bool → Progress
pick at_end at_horizon over =
    if at_end
    then if over then processed else unprocessed
    else if at_horizon
    then if over then processed_active else unprocessed
    else unprocessed

pick_iff :
    {P Q R : Type 0} (d h o : Bool)
    → (d ≡ true) ↔ P
    → (h ≡ true) ↔ Q
    → (o ≡ true) ↔ R
    → ((pick d h o ≡ processed) ↔ (P × R)) × ((pick d h o ≡ processed_active) ↔ ((¬ P) × Q × R))
pick_iff true h true p q r =
    ((λ e. (p.0 refl, r.0 refl), λ e. refl), (λ e. cc, λ (n, _, _). absurd (n (p.0 refl))))
pick_iff true h false p q r = (
  (λ e. cc, λ (_, z). let no : false ≡ true = r.1 z in cc),
  (λ e. cc, λ (n, _, _). absurd (n (p.0 refl))),
)
pick_iff false true true p q r = (
  (λ e. cc, λ (x, _). let no : false ≡ true = p.1 x in cc),
  (λ e. (λ x. let no : false ≡ true = p.1 x in cc, q.0 refl, r.0 refl), λ e. refl),
)
pick_iff false true false p q r = (
  (λ e. cc, λ (x, _). let no : false ≡ true = p.1 x in cc),
  (λ e. cc, λ (_, _, z). let no : false ≡ true = r.1 z in cc),
)
pick_iff false false o p q r = (
  (λ e. cc, λ (x, _). let no : false ≡ true = p.1 x in cc),
  (λ e. cc, λ (_, y, _). let no : false ≡ true = q.1 y in cc),
)

-- An order counts as processed and over exactly if its last action states have ended all its
-- actions and nothing of it is left in the state, and as processed and active exactly if all its
-- actions have ended and what is left is the horizon.
pub is_order_processed_iff :
    (cache : OrderStateCache) (state : State)
    → ((is_order_processed cache state ≡ processed) ↔ (IsDone state × ActionsEnded cache))
      × ((is_order_processed cache state ≡ processed_active)
          ↔ ((¬ IsDone state) × IsAtHorizon state × ActionsEnded cache))
unfolding is_order_processed
is_order_processed_iff cache state =
    pick_iff _ _ _ (IsDone-iff state) (IsAtHorizon-iff state) (ActionsEnded-iff cache)
