-- ===== src/Agv/Examples/Callbacks.antt =====
-- Tests of what is published, and the theorems about it at concrete states.
use vda_5050_lib_js.Common.Map
use vda_5050_lib_js.Common.{
  All, String, [], arith, eq_Option, eq_String, eq_ℕ, false, none, refl, some, true, ℕ, ◌+◌, ◌∷◌,
  ◌≡◌, ◌≤◌,
}
use vda_5050_lib_js.Vda.{ActionState, Error, ErrorReference, finished, is_ended, warning}
use vda_5050_lib_js.Agv.Examples.{able, idle, idle_state}
use vda_5050_lib_js.Common.Map.{Map}
use vda_5050_lib_js.Agv.Callbacks.Cleanup.{counts_error}
use vda_5050_lib_js.Agv.Callbacks.Removed.{counts_of, reported}
use vda_5050_lib_js.Agv.Callbacks.Published.{IsCounted, ended_action-published, publications}
use vda_5050_lib_js.Agv.Callbacks.Forgotten.{KnownErrors, update_errors-forgets}
use vda_5050_lib_js.Agv.Controller.{Controller, done}
use vda_5050_lib_js.Agv.Updates.{add, find_error_index, references_equal, update_errors}

abbrev honked : ActionState
honked = record {
  action_description = none;
  action_id = "i2";
  action_status = finished;
  action_type = some "honk";
  result_description = none;
}

-- An instant action has just ended.
abbrev after_honking : Controller
after_honking = record idle {
  current_state = record idle_state { action_states = honked ∷ [] };
  instant_actions_ended_publish_count = ("i2", 0) ∷ [];
}

honked-IsCounted : IsCounted "i2" honked 0 after_honking
unfolding is_ended Map.get
honked-IsCounted = record { distinct = (tt, tt); ended = refl; counted = refl; shown = refl }

ended_action-published_example :
    ((i : ℕ) → i ≤ 4 → IsCounted "i2" honked (0 + i) (publications able i after_honking))
    × (Map.get "i2" (counts_of (publications able 5 after_honking)) ≡ none)
    × (reported "i2" (publications able 5 after_honking) ≡ none)
ended_action-published_example =
    ended_action-published able "i2" honked 0 4 after_honking honked-IsCounted refl

abbrev error_of : ℕ → String → Error
error_of identity type = record {
  identity = identity;
  error_description = none;
  error_hint = none;
  error_level = warning;
  error_references = some [];
  error_type = type;
}

-- An instant action has been refused.
abbrev after_refusal : Controller
after_refusal = record idle {
  current_state = record idle_state { errors = error_of 0 "instantActionError" ∷ [] };
  instant_actions_errored_publish_count = (0, 0) ∷ [];
  next_identity = 1;
}

refusal-KnownErrors : KnownErrors after_refusal
refusal-KnownErrors = (omega arith, tt)

low_is_new :
    find_error_index (error_of 1 "batteryLow") after_refusal.current_state.errors ≡ some none
unfolding find_error_index
low_is_new = refl

update_errors-forgets_example :
    (c' : Controller) × (update_errors (error_of 1 "batteryLow") add true after_refusal ≡ done c')
    × (c'.instant_actions_errored_publish_count ≡ (0, 0) ∷ [])
    × All
        (λ (b : ℕ × ℕ). counts_error c'.current_state b.0 ≡ false)
        c'.instant_actions_errored_publish_count
update_errors-forgets_example =
    update_errors-forgets (error_of 1 "batteryLow") true after_refusal refusal-KnownErrors
      low_is_new

abbrev reference : String → ErrorReference
reference value = record { reference_key = "nodeId"; reference_value = value }

-- A reference that stands twice is compared in one direction only.
references_one_way :
    (references_equal (reference "n1" ∷ reference "n1" ∷ []) (reference "n1" ∷ reference "n2" ∷ [])
      ≡ true)
    × (references_equal
          (reference "n1" ∷ reference "n2" ∷ [])
          (reference "n1" ∷ reference "n1" ∷ [])
        ≡ false)
unfolding references_equal
references_one_way = (refl, refl)
