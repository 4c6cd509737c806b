-- ===== src/Master/Instants/Answered.antt =====
-- What the handler of an instant action is told, and when the action is forgotten:
-- `_dispatchInstantActionState` and `_dispatchInstantActionError` of src/controller/
-- master-controller.ts.
use vda_5050_lib_js.Common.{
  Bool-cases, Option, Option-cases, String, ap, false, inl, inr, none, refl, some, true, ◌∙◌, ◌≡◌,
  ◌⊎◌,
}
use vda_5050_lib_js.Vda.{ActionState, AgvId, Error, State, is_ended}
use vda_5050_lib_js.Master.Controller.{
  InstantActionStateCache, MasterController, done, emit, instant_action_error, ◌>>=◌,
}
use vda_5050_lib_js.Master.Queries.{state_of}
use vda_5050_lib_js.Master.Orders.{same_status}
use vda_5050_lib_js.Master.Instants.{InstantActionCaches, dispatch_instant_action, last_reported}
use vda_5050_lib_js.Master.Instants.Awaited.{
  IsAnswered, IsPending, keeps, kept-IsAnswered, kept_map, removes, told_of_instant, without,
  without-IsAnswered,
}
use vda_5050_lib_js.Master.Instants.Replies.{
  dispatched, error_done, error_for, error_lem, reply, state_lem,
}

-- What a state of a vehicle, with the status `s` of the action if it has one and the error for
-- the action if there is one, has done to an awaited action.
module _ (a : AgvId) (id : String) (cache : InstantActionStateCache) (state : State)
    (c d : MasterController) where
  -- With a status: it is known, or it is new and the action goes on, or new and the action is over.
  abbrev pub StatusAnswered : ActionState → Type 0
  StatusAnswered s =
      ((same_status cache.last_action_state s.action_status ≡ true) × (d ≡ c))
      ⊎ ((same_status cache.last_action_state s.action_status ≡ false)
          × (((is_ended s.action_status ≡ false)
                × IsAnswered a id (some (last_reported s cache)) (told_of_instant state cache s) c
                    d)
              ⊎ ((is_ended s.action_status ≡ true)
                  × IsAnswered a id none (told_of_instant state cache s) c d)))

  -- Without a status.
  abbrev pub ErrorAnswered : Option Error → Type 0
  ErrorAnswered none = d ≡ c
  ErrorAnswered (some e) =
      IsAnswered a id none
        (instant_action_error cache.event_handler e cache.action cache.agv_id state) c d

  abbrev pub AnsweredBy : Option ActionState → Option Error → Type 0
  AnsweredBy (some s) e = StatusAnswered s
  AnsweredBy none e = ErrorAnswered e

module _ (a : AgvId) (id : String) (cache : InstantActionStateCache) (caches : InstantActionCaches)
    (state : State) (c : MasterController) (p : IsPending a id cache caches c) where
  status-answers :
      (s : ActionState)
      → state_of id state.action_states ≡ some s
      → (d : MasterController) × (dispatch_instant_action state id cache c ≡ done d)
        × StatusAnswered a id cache state c d s
  status-answers s found =
      let lem = state_lem a id cache caches c p state s found in
      let call = reply a id cache caches c p state s in
      let same = same_status cache.last_action_state s.action_status in
      elim (Bool-cases same) [
        | inl known ↦
            (c, lem ∙ ap (λ b. call b (is_ended s.action_status)) known, inl (known, refl))
        | inr new ↦ elim (Bool-cases (is_ended s.action_status)) [
          | inr goes_on ↦ (
            emit (told_of_instant state cache s)
                (kept_map a id cache caches c p (last_reported s cache)),
            lem
                ∙ ap (λ b. call b (is_ended s.action_status)) new
                ∙ ap (call false) goes_on
                ∙ ap (λ d. done (emit (told_of_instant state cache s) d))
                    (keeps a id cache caches c p s),
            inr (
              new,
              inl (
                goes_on,
                kept-IsAnswered a id cache caches c p (last_reported s cache)
                    (told_of_instant state cache s),
              ),
            ),
          )
          | inl over ↦ (
            emit (told_of_instant state cache s) (without a id cache caches c p),
            lem
                ∙ ap (λ b. call b (is_ended s.action_status)) new
                ∙ ap (call false) over
                ∙ ap (λ o. o >>= λ d. done (emit (told_of_instant state cache s) d))
                    (removes a id cache caches c p),
            inr (
              new,
              inr (over, without-IsAnswered a id cache caches c p (told_of_instant state cache s)),
            ),
          )
        ]
      ]

  error-answers :
      state_of id state.action_states ≡ none
      → (d : MasterController) × (dispatch_instant_action state id cache c ≡ done d)
        × ErrorAnswered a id cache state c d (error_for id cache state c)
  error-answers unseen =
      let lem = error_lem a id cache caches c p state unseen in
      let call = dispatched a id cache caches c p state in
      elim (Option-cases (error_for id cache state c)) [
        | inl e ↦ (c, lem ∙ ap call e, rw e refl)
        | inr (x, e) ↦ (
          emit (instant_action_error cache.event_handler x cache.action cache.agv_id state)
              (without a id cache caches c p),
          lem ∙ ap call e ∙ error_done a id cache caches c p state x,
          rw e (
              without-IsAnswered a id cache caches c p
                (instant_action_error cache.event_handler x cache.action cache.agv_id state)),
        )
      ]

-- A state of a vehicle never throws while an awaited instant action is looked for in it, and answers
-- it as follows. A status that was told already changes nothing. A new status is told once, and the
-- action is awaited further with it, unless it has ended: then it is forgotten. Without a status, an
-- error of the vehicle for the action, or else the one with which it has refused the whole message,
-- is told once, and the action is forgotten; without any of these, nothing changes. All other
-- actions of all vehicles are awaited as before.
pub instant_action-IsAnswered :
    (a : AgvId) (id : String) (cache : InstantActionStateCache) (caches : InstantActionCaches)
    (state : State) (c : MasterController)
    → IsPending a id cache caches c
    → (d : MasterController) × (dispatch_instant_action state id cache c ≡ done d)
      × AnsweredBy a id cache state c d
          (state_of id state.action_states)
          (error_for id cache state c)
instant_action-IsAnswered a id cache caches state c p =
    elim (Option-cases (state_of id state.action_states)) [
      | inl e ↦ rw e (error-answers a id cache caches state c p e)
      | inr (s, e) ↦ rw e (status-answers a id cache caches state c p s e)
    ]
