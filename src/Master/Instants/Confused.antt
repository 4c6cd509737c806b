-- ===== src/Master/Instants/Confused.antt =====
-- Errors of validation are matched to messages by their number alone:
-- `_updateInstantActionsValidationError` of src/controller/master-controller.ts.
use vda_5050_lib_js.Common.{
  ==_refl, List, [], ap, arith, eq_Bool, eq_Option, eq_String, eq_ℕ, filter, none, refl, some, ℕ,
  ◌+◌, ◌-◌, ◌∙◌, ◌∷◌, ◌≡◌, ◌≢◌,
}
use vda_5050_lib_js.Vda.{Error, eq_AgvId}
use vda_5050_lib_js.Master.Controller.{MasterController}
use vda_5050_lib_js.Master.Instants.{
  get_instant_actions_validation_error, is_validation_error, renew_errors, renewed,
  update_instant_actions_validation_error,
}

abbrev found_errors : List Error → List Error
found_errors = filter is_validation_error

update_lem :
    (errors : List Error) (r : ℕ) (c : MasterController)
    → c.current_instant_actions_ref ≡ some r
    → update_instant_actions_validation_error errors c
      ≡ record c { validation_errors = renewed r (found_errors errors) c.validation_errors }
unfolding update_instant_actions_validation_error
update_lem errors r c h = ap (λ o. renew_errors o errors c) h

-- A vehicle reports an error of validation, which is known as that of message `q`. After a state of
-- any vehicle without such an error, and the same report again, the error is taken for that of the
-- message initiated last, `r`, and no longer for that of `q`.
pub other_state-renumbers :
    (other own : List Error) (e : Error) (q r : ℕ) (c : MasterController)
    → c.current_instant_actions_ref ≡ some r
    → c.validation_errors ≡ (q, e) ∷ []
    → filter is_validation_error other ≡ []
    → filter is_validation_error own ≡ e ∷ []
    → q ≢ r
    → (get_instant_actions_validation_error r
          (update_instant_actions_validation_error own
            (update_instant_actions_validation_error other c)).validation_errors
        ≡ some e)
      × (get_instant_actions_validation_error q
            (update_instant_actions_validation_error own
              (update_instant_actions_validation_error other c)).validation_errors
          ≡ none)
unfolding get_instant_actions_validation_error
other_state-renumbers other own e q r c ref known quiet again d =
    let forgot : update_instant_actions_validation_error other c
        ≡ record c { validation_errors = [] } =
      update_lem other r c ref
      ∙ ap (λ es. record c { validation_errors = renewed r es c.validation_errors }) quiet
      ∙ ap (λ es. record c { validation_errors = renewed r [] es }) known in
    let result : (update_instant_actions_validation_error own
          (update_instant_actions_validation_error other c)).validation_errors
        ≡ (r, e) ∷ [] =
      ap (λ x. MasterController.validation_errors (update_instant_actions_validation_error own x))
        forgot
      ∙ ap MasterController.validation_errors
          (update_lem own r (record c { validation_errors = [] }) ref)
      ∙ ap (λ es. renewed r es []) again in
    (
      ap (get_instant_actions_validation_error r) result ∙ rw (==_refl r) refl,
      ap (get_instant_actions_validation_error q) result ∙ ground arith,
    )

-- Two errors of validation that are new in one state are taken in the wrong order: the older one,
-- which stands first, for that of the message initiated last.
pub new_errors-swapped :
    (errors : List Error) (older newer : Error) (r : ℕ) (c : MasterController)
    → c.current_instant_actions_ref ≡ some (r + 1)
    → c.validation_errors ≡ []
    → filter is_validation_error errors ≡ older ∷ newer ∷ []
    → (get_instant_actions_validation_error
          (r + 1)
          (update_instant_actions_validation_error errors c).validation_errors
        ≡ some older)
      × (get_instant_actions_validation_error r
            (update_instant_actions_validation_error errors c).validation_errors
          ≡ some newer)
unfolding get_instant_actions_validation_error
new_errors-swapped errors older newer r c ref known found =
    let result : (update_instant_actions_validation_error errors c).validation_errors
        ≡ (r + 1, older) ∷ (r + 1 - 1, newer) ∷ [] =
      ap MasterController.validation_errors (update_lem errors (r + 1) c ref)
      ∙ ap (λ es. renewed (r + 1) es c.validation_errors) found
      ∙ ap (λ es. renewed (r + 1) (older ∷ newer ∷ []) es) known in
    (
      ap (get_instant_actions_validation_error (r + 1)) result ∙ rw (==_refl (r + 1)) refl,
      ap (get_instant_actions_validation_error r) result ∙ ground arith,
    )
