-- ===== src/Agv/Callbacks/Published.antt =====
-- How often the final state of an instant action is published: `state_published`, over and over.
use vda_5050_lib_js.Common.Map
-- The action has ended, and its state has been published `n` times since.
use vda_5050_lib_js.Common.{
  String, ap, arith, eq_Option, eq_String, eq_ℕ, false, find?, none, refl, some, suc, true, zero, ℕ,
  ◌+◌, ◌<◌, ◌==◌, ◌∙◌, ◌≡◌, ◌≤◌,
}
use vda_5050_lib_js.Vda.{ActionState, is_ended}
use vda_5050_lib_js.Common.Map.{IsMap, Map}
use vda_5050_lib_js.Agv.Callbacks.Cleanup.{counts_action, expired_keys, state_published}
use vda_5050_lib_js.Agv.Callbacks.Counts.{visit_all-IsMap, visit_all-counted, visit_all-expired}
use vda_5050_lib_js.Agv.Controller.{Adapter, Controller}
use vda_5050_lib_js.Agv.Callbacks.Removed.{
  counts_of, reported, state_published-counts, state_published-states, without-gone, without-kept,
}

pub record IsCounted (id : String) (s : ActionState) (n : ℕ) (c : Controller) : Type 0 where
  pub distinct : IsMap (counts_of c)
  pub ended : is_ended s.action_status ≡ true
  pub counted : Map.get id (counts_of c) ≡ some n
  pub shown : reported id c ≡ some s

IsCounted-counts :
    (id : String) (s : ActionState) (n : ℕ) (c : Controller)
    → IsCounted id s n c
    → counts_action c.current_state id ≡ true
unfolding counts_action
IsCounted-counts id s n c h =
    ap (λ o. elim o [ none ↦ false | some a ↦ is_ended a.action_status ]) h.shown ∙ h.ended

published_again :
    (env : Adapter) (id : String) (s : ActionState) (n : ℕ) (c : Controller)
    → IsCounted id s n c
    → suc n < env.final_publish_count
    → IsCounted id s (suc n) (state_published env c)
published_again env id s n c h k =
    let (got, alive) =
      visit_all-counted (counts_action c.current_state) env.final_publish_count id n (counts_of c)
        h.distinct (IsCounted-counts id s n c h) k h.counted in
    record {
      distinct = rw (state_published-counts env c) (
          visit_all-IsMap (counts_action c.current_state) env.final_publish_count (counts_of c)
            h.distinct);
      ended = h.ended;
      counted = ap (Map.get id) (state_published-counts env c) ∙ got;
      shown =
          ap (find? (λ a. a.action_id == id)) (state_published-states env c)
          ∙ without-kept id _ c.current_state.action_states alive
          ∙ h.shown;
    }

published_last :
    (env : Adapter) (id : String) (s : ActionState) (n : ℕ) (c : Controller)
    → IsCounted id s n c
    → env.final_publish_count ≤ suc n
    → (Map.get id (counts_of (state_published env c)) ≡ none)
      × (reported id (state_published env c) ≡ none)
published_last env id s n c h k =
    let (got, gone) =
      visit_all-expired (counts_action c.current_state) env.final_publish_count id n (counts_of c)
        h.distinct (IsCounted-counts id s n c h) k h.counted in
    (
      ap (Map.get id) (state_published-counts env c) ∙ got,
      ap (find? (λ a. a.action_id == id)) (state_published-states env c)
          ∙ without-gone id
              (expired_keys (counts_action c.current_state) env.final_publish_count (counts_of c))
              c.current_state.action_states gone,
    )

unfoldable pub publications : Adapter → ℕ → Controller → Controller
unfolding state_published
publications env zero c = c
publications env (suc n) c = publications env n (state_published env c)

published_on :
    (env : Adapter) (id : String) (s : ActionState) (k n : ℕ) (c : Controller)
    → IsCounted id s n c
    → n + k < env.final_publish_count
    → IsCounted id s (n + k) (publications env k c)
unfolding publications
published_on env id s zero n c h l = let same : n + 0 ≡ n = omega arith in rw same h
published_on env id s (suc k) n c h l =
    let same : n + suc k ≡ suc n + k = omega arith in
    rw same (
      published_on env id s k (suc n) (state_published env c)
        (published_again env id s n c h (omega arith)) (omega arith))

publications_last :
    (env : Adapter) (k : ℕ) (c : Controller)
    → publications env (suc k) c ≡ state_published env (publications env k c)
unfolding publications
publications_last env zero c = refl
publications_last env (suc k) c = publications_last env k (state_published env c)

-- An instant action that has ended and has been published `n` times stays in the state, with its
-- count, for every publication before the final one, and with the final one it is removed from the
-- state and is no longer counted.
pub ended_action-published :
    (env : Adapter) (id : String) (s : ActionState) (n k : ℕ) (c : Controller)
    → IsCounted id s n c
    → suc (n + k) ≡ env.final_publish_count
    → ((i : ℕ) → i ≤ k → IsCounted id s (n + i) (publications env i c))
      × (Map.get id (counts_of (publications env (suc k) c)) ≡ none)
      × (reported id (publications env (suc k) c) ≡ none)
ended_action-published env id s n k c h l =
    let last = published_on env id s k n c h (omega arith) in
    let (uncounted, gone) =
      published_last env id s (n + k) (publications env k c) last (omega arith) in
    (
      λ i m. published_on env id s i n c h (omega arith),
      rw (publications_last env k c) uncounted,
      rw (publications_last env k c) gone,
    )
