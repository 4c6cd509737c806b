-- ===== src/Agv/Callbacks/Removed.antt =====
-- What a publication leaves of the states and the counts of instant actions.
use mathlib.Core.Option
use vda_5050_lib_js.Common.{
  Bool, Bool-cases, List, Option, String, [], any, arith, eq_Option, eq_String, eq_of_==, eq_ℕ,
  false, filter, find?, inl, inr, none, not, refl, some, true, ℕ, ◌==◌, ◌∷◌, ◌≡◌,
}
use vda_5050_lib_js.Vda.{ActionState, Error}
use vda_5050_lib_js.Common.Map.{Map}
use vda_5050_lib_js.Agv.Callbacks.Cleanup.{
  cleanup_instant_action_states, count_publication, counts_action, errors_left, expired_keys,
  report_remaining, state_published, states_left, visit_all, without,
}
use vda_5050_lib_js.Agv.Controller.{Adapter, Controller}
use vda_5050_lib_js.Agv.Updates.{merge_state, update_state}

abbrev pub reported : String → Controller → Option ActionState
reported id c = find? (λ a. a.action_id == id) c.current_state.action_states

module _ (id : String) (ids : List String) where
  abbrev keeps : ActionState → Bool
  keeps a = not (any (λ j. j == a.action_id) ids)

  find?-kept :
      (states : List ActionState)
      → any (λ j. j == id) ids ≡ false
      → find? (λ a. a.action_id == id) (filter keeps states) ≡ find? (λ a. a.action_id == id) states
  find?-kept [] h = refl
  find?-kept (a ∷ states) h = elim (Bool-cases (a.action_id == id)) [
    | inl e ↦
        let same : a.action_id ≡ id = eq_of_== a.action_id id e in
        let kept : keeps a ≡ true = rw same (rw h refl) in simp kept (rw e refl)
    | inr e ↦ ground (arith, find?-kept states h)
  ]

  find?-gone :
      (states : List ActionState)
      → any (λ j. j == id) ids ≡ true
      → find? (λ a. a.action_id == id) (filter keeps states) ≡ none
  find?-gone [] h = refl
  find?-gone (a ∷ states) h = elim (Bool-cases (a.action_id == id)) [
    | inl e ↦
        let same : a.action_id ≡ id = eq_of_== a.action_id id e in
        let gone : keeps a ≡ false = rw same (rw h refl) in simp gone (find?-gone states h)
    | inr e ↦ ground (arith, find?-gone states h)
  ]

report_remaining-counts :
    (errors : Option (List Error)) (states : Option (List ActionState)) (c : Controller)
    → (report_remaining errors states c).instant_actions_ended_publish_count
      ≡ c.instant_actions_ended_publish_count
unfolding update_state
report_remaining-counts none none c = refl
report_remaining-counts none (some states) c = refl
report_remaining-counts (some errors) none c = refl
report_remaining-counts (some errors) (some states) c = refl

report_remaining-states :
    (errors : Option (List Error)) (states : Option (List ActionState)) (c : Controller)
    → (report_remaining errors states c).current_state.action_states
      ≡ Option.get_or states c.current_state.action_states
unfolding update_state merge_state
report_remaining-states none none c = refl
report_remaining-states none (some states) c = refl
report_remaining-states (some errors) none c = refl
report_remaining-states (some errors) (some states) c = refl

pub without-kept :
    (id : String) (ids : List String) (states : List ActionState)
    → any (λ j. j == id) ids ≡ false
    → find? (λ a. a.action_id == id) (Option.get_or (without (λ a. a.action_id) ids states) states)
      ≡ find? (λ a. a.action_id == id) states
without-kept id [] states h = refl
without-kept id (k ∷ ids) states h = find?-kept id (k ∷ ids) states h

pub without-gone :
    (id : String) (ids : List String) (states : List ActionState)
    → any (λ j. j == id) ids ≡ true
    → find? (λ a. a.action_id == id) (Option.get_or (without (λ a. a.action_id) ids states) states)
      ≡ none
without-gone id [] states h = absurd (cc)
without-gone id (k ∷ ids) states h = find?-gone id (k ∷ ids) states h

abbrev pub counts_of : Controller → Map String ℕ
counts_of c = c.instant_actions_ended_publish_count

abbrev sent : Controller → Controller
sent c = record c { current_state = record c.current_state { timestamp = none } }

pub state_published-counts :
    (env : Adapter) (c : Controller)
    → counts_of (state_published env c)
      ≡ visit_all (counts_action c.current_state) env.final_publish_count (counts_of c)
unfolding state_published cleanup_instant_action_states count_publication counts_action
state_published-counts env c =
    report_remaining-counts (errors_left env (sent c)) (states_left env (sent c))
      (count_publication env (sent c))

pub state_published-states :
    (env : Adapter) (c : Controller)
    → (state_published env c).current_state.action_states
      ≡ Option.get_or
          (without
            (λ a. a.action_id)
            (expired_keys (counts_action c.current_state) env.final_publish_count (counts_of c))
            c.current_state.action_states)
          c.current_state.action_states
unfolding state_published cleanup_instant_action_states states_left count_publication counts_action
state_published-states env c =
    report_remaining-states (errors_left env (sent c)) (states_left env (sent c))
      (count_publication env (sent c))
