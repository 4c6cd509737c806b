-- ===== src/Agv/Callbacks/Forgotten.antt =====
-- The errors of instant actions are counted by the error objects, which `updateErrors` copies.
use vda_5050_lib_js.Common.{
  All, Bool, List, [], any, ap, arith, eq_Option, eq_String, eq_ℕ, false, none, refl, some, suc,
  true, ℕ, ◌++◌, ◌<◌, ◌==◌, ◌∙◌, ◌∷◌, ◌≡◌,
}
use vda_5050_lib_js.Vda.{Error, State}
use vda_5050_lib_js.Common.Map.{Map}
use vda_5050_lib_js.Agv.Callbacks.Cleanup.{counts_error}
use vda_5050_lib_js.Agv.Controller.{Controller, done, thrown}
use vda_5050_lib_js.Agv.Updates.{
  add, changed_errors, clone_state, find_error_index, merge_state, renumber, report_errors,
  update_errors, update_partial_state, update_state,
}

renumber-fresh :
    (i j : ℕ) (es : List Error) → i < j → any (λ e. e.identity == i) (renumber j es) ≡ false
unfolding renumber
renumber-fresh i j [] h = refl
renumber-fresh i j (e ∷ es) h = ground (arith, renumber-fresh i (suc j) es)

-- The errors that are counted have been made before.
abbrev pub KnownErrors : Controller → Type 0
KnownErrors c = All (λ (b : ℕ × ℕ). b.0 < c.next_identity) c.instant_actions_errored_publish_count

none_counted :
    (s : State) (j : ℕ) (es : List Error) (m : Map ℕ ℕ)
    → All (λ (b : ℕ × ℕ). b.0 < j) m
    → s.errors ≡ renumber j es
    → All (λ (b : ℕ × ℕ). counts_error s b.0 ≡ false) m
unfolding counts_error
none_counted s j es [] h e = tt
none_counted s j es ((i, n) ∷ m) (h, t) e =
    (ap (any (λ x. x.identity == i)) e ∙ renumber-fresh i j es h, none_counted s j es m t e)

copied :
    (es : List Error) (report_immediately : Bool) (c : Controller)
    → let c' = report_errors (some es) report_immediately c in
      (c'.instant_actions_errored_publish_count ≡ c.instant_actions_errored_publish_count)
      × (c'.current_state.errors ≡ renumber c.next_identity es)
unfolding update_partial_state update_state clone_state merge_state
copied es true c = (refl, refl)
copied es false c = (refl, refl)

-- Whenever `updateErrors` adds an error, the state holds copies of all errors from then on: no error
-- that is counted for an instant action stands in the state any more, so that none of them is
-- counted further or removed.
pub update_errors-forgets :
    (error : Error) (report_immediately : Bool) (c : Controller)
    → KnownErrors c
    → find_error_index error c.current_state.errors ≡ some none
    → (c' : Controller) × (update_errors error add report_immediately c ≡ done c')
      × (c'.instant_actions_errored_publish_count ≡ c.instant_actions_errored_publish_count)
      × All
          (λ (b : ℕ × ℕ). counts_error c'.current_state b.0 ≡ false)
          c'.instant_actions_errored_publish_count
unfolding update_errors changed_errors
update_errors-forgets error report c known e =
    let es = c.current_state.errors ++ error ∷ [] in
    let c' = report_errors (some es) report c in
    let (counts, copies) = copied es report c in
    (
      c',
      ap
          (λ o. elim o [
            | none ↦ thrown c
            | some index ↦
                done
                  (report_errors (changed_errors error add index c.current_state.errors) report c)
          ])
          e,
      counts,
      rw counts (
          none_counted c'.current_state c.next_identity es c.instant_actions_errored_publish_count
            known copies),
    )
