-- ===== src/Agv/Status/Ended.antt =====
-- What is left when an action has ended, in `_updateActionStatus` of src/controller/
-- agv-controller.ts: the list of instant actions gets shorter, or nothing follows.
use vda_5050_lib_js.Common.{
  Bool, Bool-cases, List, Option, Option-cases, [], ap, arith, drop_last, false, find_index?, inl,
  inr, length, none, remove_at, some, suc, true, zero, ℕ, ◌∷◌, ◌≡◌, ◌≤◌,
}
use vda_5050_lib_js.Vda.{Action, Order, is_hard}
use vda_5050_lib_js.Agv.Controller.{Adapter, Controller, Outcome, done}
use vda_5050_lib_js.Agv.Queries.{has_canceling_order}
use vda_5050_lib_js.Agv.Chunk.{
  are_parallel_actions_ended, get_hard_blocking_action_after, has_id_of, index_of, next_chunk,
}
use vda_5050_lib_js.Agv.Status.{
  Update, drop_instant_action, on_instant_action_ended, on_order_action_ended,
  process_instant_action_chunk, run_instant_chunk, splice_one,
}
use vda_5050_lib_js.Agv.Status.Keeps.{Holds, IsSteady, Keeps, with_order-Keeps}
use vda_5050_lib_js.Agv.Status.Cancel.{cancel_if_all_ended}
use vda_5050_lib_js.Agv.Status.Inner.{
  Fits, process_instant_action-Keeps, process_instant_action_chunk-Keeps,
}

length-drop_last {ℓ} :
    {A : Type ℓ} (n : ℕ) (xs : List A) → length xs ≤ suc n → length (drop_last xs) ≤ n
length-drop_last n [] h = omega arith
length-drop_last n (x ∷ []) h = omega arith
length-drop_last zero (x ∷ y ∷ ys) h = absurd (omega arith)
length-drop_last (suc n) (x ∷ y ∷ ys) h = omega (arith, length-drop_last n (y ∷ ys))

length-remove_found {ℓ} :
    {A : Type ℓ} (p : A → Bool) (n i : ℕ) (xs : List A)
    → find_index? p xs ≡ some i
    → length xs ≤ suc n
    → length (remove_at i xs) ≤ n
length-remove_found p n i [] e h = cc
length-remove_found p n zero (x ∷ xs) e h = omega arith
length-remove_found p n (suc i) (x ∷ []) e h = ground arith
length-remove_found p zero (suc i) (x ∷ y ∷ xs) e h = absurd (omega arith)
length-remove_found p (suc n) (suc i) (x ∷ y ∷ xs) e h =
    elim (Option-cases (find_index? p (y ∷ xs))) [
      | inl none_found ↦ ground arith
      | inr (j, found) ↦ ground (arith, length-remove_found p n j (y ∷ xs) found)
    ]

length-drop_instant_action :
    (n : ℕ) (a : Action) (c : Controller)
    → length c.current_instant_actions ≤ suc n
    → length (drop_instant_action a c).current_instant_actions ≤ n
unfolding drop_instant_action index_of
length-drop_instant_action n a c h =
    elim (Option-cases (find_index? (has_id_of a) c.current_instant_actions)) [
      | inl e ↦ simp e (length-drop_last n c.current_instant_actions h)
      | inr (i, e) ↦ simp e (length-remove_found (has_id_of a) n i c.current_instant_actions e h)
    ]

pub on_instant_action_ended-Keeps :
    (env : Adapter) (n : ℕ) (r : Option Order) (update : Update) (fits : Fits n r update)
    (a : Action) (c : Controller)
    → Holds (suc n) r c
    → Keeps n r (on_instant_action_ended env update a c)
unfolding on_instant_action_ended drop_instant_action
on_instant_action_ended-Keeps env n r update fits a c (h, same) =
    let dropped = drop_instant_action a c in
    let rest : Holds n r dropped = (length-drop_instant_action n a c h, same) in
    elim (Bool-cases (is_hard a.blocking_type)) [
      | inl e ↦
          simp e (process_instant_action_chunk-Keeps env n r update fits none false dropped rest)
      | inr e ↦ elim (Option-cases (get_hard_blocking_action_after c.current_instant_actions a)) [
        | inl o ↦ simp (e, o) rest
        | inr (b, o) ↦
            elim (Bool-cases (are_parallel_actions_ended c c.current_instant_actions a false)) [
              | inl p ↦
                  simp (e, o, p)
                    (process_instant_action-Keeps env n r update fits b true dropped rest)
              | inr p ↦ simp (e, o, p) rest
            ]
      ]
    ]

chunk-empty :
    (env : Adapter) (update : Update) (c : Controller)
    → c.current_instant_actions ≡ []
    → process_instant_action_chunk env update none false c ≡ done c
unfolding process_instant_action_chunk
chunk-empty env update c h = ap (λ l. run_instant_chunk env update (next_chunk none l) false c) h

hard_after-empty :
    (actions : List Action) (a : Action)
    → actions ≡ []
    → get_hard_blocking_action_after actions a ≡ none
unfolding get_hard_blocking_action_after
hard_after-empty actions a h = ap (λ l. get_hard_blocking_action_after l a) h

-- Nothing follows on the end of an instant action when none is left.
pub on_instant_action_ended-empty :
    (env : Adapter) (update : Update) (a : Action) (r : Option Order) (c : Controller)
    → c.current_instant_actions ≡ []
    → c.current_order ≡ r
    → Keeps 0 r (on_instant_action_ended env update a c)
unfolding on_instant_action_ended drop_instant_action
on_instant_action_ended-empty env update a r c h same =
    let rest = drop_instant_action a c in
    let none_left : rest.current_instant_actions ≡ [] = ap (λ l. splice_one (index_of a l) l) h in
    let short : Holds 0 r rest = (omega (arith, ap length none_left), same) in
    elim (Bool-cases (is_hard a.blocking_type)) [
      | inl e ↦ simp (e, chunk-empty env update rest none_left) short
      | inr e ↦ simp (e, hard_after-empty c.current_instant_actions a h) short
    ]

pub on_order_action_ended-IsSteady :
    (process_actions : Option Action → Controller → Outcome)
    (process_action : Action → Bool → Controller → Outcome) (go_on : Controller → Outcome)
    (actions : List Action) (a : Action)
    → ((after : Option Action) → IsSteady (process_actions after))
    → ((b : Action) (stop : Bool) → IsSteady (process_action b stop))
    → IsSteady go_on
    → IsSteady (on_order_action_ended process_actions process_action go_on actions a)
unfolding on_order_action_ended cancel_if_all_ended
on_order_action_ended-IsSteady process_actions process_action go_on actions a s t u n r c h =
    elim (Bool-cases (has_canceling_order c)) [
      | inl e ↦ simp e (with_order-Keeps n r c _ h (λ order. ground arith))
      | inr e ↦ elim (Bool-cases (is_hard a.blocking_type)) [
        | inl e' ↦ simp (e, e') (s (some a) n r c h)
        | inr e' ↦ elim (Option-cases (get_hard_blocking_action_after actions a)) [
          | inl o ↦ elim (Bool-cases (are_parallel_actions_ended c actions a true)) [
            | inl p ↦ simp (e, e', o, p) (u n r c h)
            | inr p ↦ simp (e, e', o, p) h
          ]
          | inr (b, o) ↦ elim (Bool-cases (are_parallel_actions_ended c actions a false)) [
            | inl p ↦ simp (e, e', o, p) (t b true n r c h)
            | inr p ↦ simp (e, e', o, p) h
          ]
        ]
      ]
    ]
