-- ===== src/Agv/Callbacks/Cleanup.antt =====
-- After a publication: the end of `_publishCurrentState`, and `_cleanupInstantActionStates`, in
-- src/controller/agv-controller.ts.
use vda_5050_lib_js.Common.{
  Bool, Eq, List, Option, String, [], any, eq_Option, eq_String, eq_ℕ, false, filter, find?,
  if◌then◌else◌, leb, none, not, some, suc, ℕ, ◌==◌, ◌∷◌,
}
use vda_5050_lib_js.Vda.{ActionState, Error, State, is_ended}
use vda_5050_lib_js.Agv.Controller.{Adapter, Controller}
use vda_5050_lib_js.Agv.Updates.{no_changes, update_state}
use vda_5050_lib_js.Common.Map.{Map}

-- One visit of `forEach` over the counts: the entry is left, counted up, or removed.
pub data Visit : Type 0 where
  leave count expire : Visit

abbrev pub visit : Bool → ℕ → ℕ → Visit
visit counts n final = if counts then (if leb final (suc n) then expire else count) else leave

-- The map after all visits: counting up keeps an entry's place.
unfoldable pub visit_all {ℓ} : {K : Type ℓ} → (K → Bool) → ℕ → Map K ℕ → Map K ℕ
visit_all counts final [] = []
visit_all counts final ((k, n) ∷ m) =
    let rest = visit_all counts final m in
    elim (visit (counts k) n final) [
      | leave ↦ (k, n) ∷ rest
      | count ↦ (k, suc n) ∷ rest
      | expire ↦ rest
    ]

-- The keys that the visits remove.
unfoldable pub expired_keys {ℓ} : {K : Type ℓ} → (K → Bool) → ℕ → Map K ℕ → List K
expired_keys counts final [] = []
expired_keys counts final ((k, n) ∷ m) =
    let rest = expired_keys counts final m in
    elim (visit (counts k) n final) [ leave ↦ rest | count ↦ rest | expire ↦ k ∷ rest ]

-- The error is still reported; the action is reported as ended.
unfoldable pub counts_error : State → ℕ → Bool
counts_error s i = any (λ e. e.identity == i) s.errors

unfoldable pub counts_action : State → String → Bool
unfolding is_ended
counts_action s id = elim (find? (λ a. a.action_id == id) s.action_states) [
  | none ↦ false
  | some a ↦ is_ended a.action_status
]

abbrev pub without {ℓ κ} :
    {A : Type ℓ} {K : Type κ} ⦃e : Eq K⦄ → (A → K) → List K → List A → Option (List A)
without key [] xs = none
without key (k ∷ ks) xs = some (filter (λ x. not (any (λ j. j == key x) (k ∷ ks))) xs)

abbrev pub report_remaining :
    Option (List Error) → Option (List ActionState) → Controller → Controller
report_remaining none none c = c
report_remaining errors action_states c =
    update_state (record no_changes { errors = errors; action_states = action_states }) false c

-- The errors and the action states that are left, if any are removed.
unfoldable pub errors_left : Adapter → Controller → Option (List Error)
unfolding expired_keys counts_error
errors_left env c =
    let s = c.current_state in
    without (λ e. e.identity)
      (expired_keys (counts_error s) env.final_publish_count
        c.instant_actions_errored_publish_count)
      s.errors

unfoldable pub states_left : Adapter → Controller → Option (List ActionState)
unfolding expired_keys counts_action
states_left env c =
    let s = c.current_state in
    without (λ a. a.action_id)
      (expired_keys (counts_action s) env.final_publish_count c.instant_actions_ended_publish_count)
      s.action_states

unfoldable pub count_publication : Adapter → Controller → Controller
unfolding visit_all counts_error counts_action
count_publication env c =
    let s = c.current_state in
    record c {
      instant_actions_errored_publish_count =
          visit_all (counts_error s) env.final_publish_count
            c.instant_actions_errored_publish_count;
      instant_actions_ended_publish_count =
          visit_all (counts_action s) env.final_publish_count c.instant_actions_ended_publish_count;
    }

unfoldable pub cleanup_instant_action_states : Adapter → Controller → Controller
unfolding errors_left states_left count_publication update_state
cleanup_instant_action_states env c =
    report_remaining (errors_left env c) (states_left env c) (count_publication env c)

-- The state has been published: not if it was dropped while offline.
unfoldable pub state_published : Adapter → Controller → Controller
unfolding cleanup_instant_action_states
state_published env c =
    cleanup_instant_action_states env
      (record c { current_state = record c.current_state { timestamp = none } })
