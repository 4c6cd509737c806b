-- ===== src/Agv/Orders/Canceling/States.antt =====
-- The action states when a cancellation begins: `_cancelOrder` and `_updateActionState` of
-- src/controller/agv-controller.ts.
use mathlib.Core.Option
use vda_5050_lib_js.Common.{
  Bool-cases, List, Option, [], ap, arith, eq_Bool, eq_Option, eq_String, eq_ℕ, false, find_index?,
  if◌then◌else◌, inl, inr, none, refl, set, some, suc, true, ℕ, ◌++◌, ◌==◌, ◌∙◌, ◌∷◌, ◌≡◌, ◌≢◌, ◌⊎◌,
}
use vda_5050_lib_js.Vda.{
  Action, ActionState, ActionStatus, eq_AgvId, failed, is_waiting, running, waiting,
}
use vda_5050_lib_js.Agv.Controller.{Controller}
use vda_5050_lib_js.Agv.Queries.{is_instant_action_state}
use vda_5050_lib_js.Agv.Status.Apply.{put_action_state}
use vda_5050_lib_js.Agv.Status.Cancel.{fail_waiting}

-- An action of the order that was waiting has failed; all others are as before.
abbrev pub IsFailed : Controller → ActionState → ActionState → Type 0
IsFailed c s t =
    ((is_instant_action_state c s ≡ false)
      × (s.action_status ≡ waiting)
      × (t ≡ record s { action_status = failed }))
    ⊎ (((is_instant_action_state c s ≡ true) ⊎ (s.action_status ≢ waiting)) × (t ≡ s))

abbrev pub AreFailed : Controller → List ActionState → List ActionState → Type 0
AreFailed c [] [] = Unit
AreFailed c (s ∷ ss) (t ∷ ts) = IsFailed c s t × AreFailed c ss ts
AreFailed c _ _ = ⊥

-- The state stands where one with its id stood, or last.
abbrev pub replaced : ActionState → List ActionState → List ActionState
replaced s [] = s ∷ []
replaced s (t ∷ ts) = if t.action_id == s.action_id then s ∷ ts else t ∷ replaced s ts

abbrev pub running_state : Action → ActionState
running_state a = record {
  action_description = a.action_description;
  action_id = a.action_id;
  action_status = running;
  action_type = some a.action_type;
  result_description = none;
}

is_waiting_iff : (a : ActionStatus) → is_waiting a ≡ true → a ≡ waiting
unfolding is_waiting
is_waiting_iff a h = ground arith

not_waiting : (a : ActionStatus) → is_waiting a ≡ false → a ≢ waiting
unfolding is_waiting
not_waiting a h e = ground arith

pub fail_waiting-AreFailed :
    (c : Controller) (ss : List ActionState) → AreFailed c ss (fail_waiting c ss)
unfolding fail_waiting
fail_waiting-AreFailed c [] = tt
fail_waiting-AreFailed c (s ∷ ss) = (
  elim (Bool-cases (is_instant_action_state c s)) [
    | inl e ↦ inr (inl e, simp e refl)
    | inr e ↦ elim (Bool-cases (is_waiting s.action_status)) [
      | inl w ↦ inl (e, is_waiting_iff s.action_status w, simp (e, w) refl)
      | inr w ↦ inr (inr (not_waiting s.action_status w), simp (e, w) refl)
    ]
  ],
  fail_waiting-AreFailed c ss,
)

abbrev put_at : Option ℕ → ActionState → List ActionState → List ActionState
put_at none s ts = ts ++ s ∷ []
put_at (some i) s ts = set ts i s

put_at-suc :
    (o : Option ℕ) (s t : ActionState) (ts : List ActionState)
    → put_at (Option.map suc o) s (t ∷ ts) ≡ t ∷ put_at o s ts
put_at-suc none s t ts = refl
put_at-suc (some i) s t ts = refl

put_at-replaced :
    (s : ActionState) (ts : List ActionState)
    → put_at (find_index? (λ (t : ActionState). t.action_id == s.action_id) ts) s ts ≡ replaced s ts
put_at-replaced s [] = refl
put_at-replaced s (t ∷ ts) = elim (Bool-cases (t.action_id == s.action_id)) [
  | inl e ↦ simp e refl
  | inr e ↦ simp e (
      put_at-suc (find_index? (λ (t : ActionState). t.action_id == s.action_id) ts) s t ts
      ∙ ap (λ rest. t ∷ rest) (put_at-replaced s ts))
]

pub put_action_state-replaced :
    (a : Action) (ts : List ActionState)
    → put_action_state a (running_state a) ts ≡ replaced (running_state a) ts
unfolding put_action_state
put_action_state-replaced a ts = put_lem ∙ put_at-replaced (running_state a) ts
  where
    by_index :
        (o : Option ℕ)
        → (elim o [ none ↦ ts ++ running_state a ∷ [] | some i ↦ set ts i (running_state a) ])
          ≡ put_at o (running_state a) ts
    by_index none = refl
    by_index (some i) = refl

    put_lem :
        put_action_state a (running_state a) ts
        ≡ put_at
            (find_index? (λ (t : ActionState). t.action_id == a.action_id) ts)
            (running_state a)
            ts
    put_lem = by_index (find_index? (λ (t : ActionState). t.action_id == a.action_id) ts)
