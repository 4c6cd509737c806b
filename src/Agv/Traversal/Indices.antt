-- ===== src/Agv/Traversal/Indices.antt =====
-- The indices of a chunk of actions, against the list of the actions that are left.
use mathlib.Core.Option
use vda_5050_lib_js.Common.{
  Bool, Bool-cases, List, Option, Option-cases, [], any, ap, arith, drop, find_index?, inl, inr,
  length, none, not, refl, some, suc, sym, take, take_while, zero, ℕ, ◌+◌, ◌-◌, ◌<◌, ◌∙◌, ◌∷◌, ◌≡◌,
  ◌≤◌,
}
use vda_5050_lib_js.Vda.{Action, is_hard, is_soft}
use vda_5050_lib_js.Agv.Chunk.{
  after_start, find_from, has_id_of, index_of, index_or, is_before, next_chunk, slice,
}

abbrev pub is_free : Action → Bool
is_free a = not (is_hard a.blocking_type)

abbrev pub index_in_run : List Action → ℕ
index_in_run actions = length (take_while is_free actions)

take_run :
    (actions : List Action) → take (index_in_run actions) actions ≡ take_while is_free actions
take_run [] = refl
take_run (a ∷ actions) = elim (Bool-cases (is_hard a.blocking_type)) [
  | inl e ↦ simp e refl
  | inr e ↦ simp e (ap (λ l. a ∷ l) (take_run actions))
]

-- The first hard action stands where the run ends.
run_end :
    (actions : List Action)
    → index_or (find_index? (λ a. is_hard a.blocking_type) actions) (length actions)
      ≡ index_in_run actions
run_end [] = refl
run_end (a ∷ actions) = elim (Bool-cases (is_hard a.blocking_type)) [
  | inl e ↦ simp e refl
  | inr e ↦ elim (Option-cases (find_index? (λ b. is_hard b.blocking_type) actions)) [
    | inl o ↦ simp (e, o) (ap suc (sym (ap (λ x. index_or x (length actions)) o) ∙ run_end actions))
    | inr (i, o) ↦
        simp (e, o) (ap suc (sym (ap (λ x. index_or x (length actions)) o) ∙ run_end actions))
  ]
]

soft_in_run :
    (actions : List Action)
    → is_before (find_index? (λ a. is_soft a.blocking_type) actions) (index_in_run actions)
      ≡ any (λ a. is_soft a.blocking_type) (take_while is_free actions)
soft_in_run [] = refl
soft_in_run (a ∷ actions) = elim (Bool-cases (is_hard a.blocking_type)) [
  | inl e ↦ elim (Option-cases (find_index? (λ b. is_soft b.blocking_type) (a ∷ actions))) [
    | inl o ↦ simp (e, o) refl
    | inr (i, o) ↦ simp (e, o) (ground arith)
  ]
  | inr e ↦ elim (Bool-cases (is_soft a.blocking_type)) [
    | inl k ↦ ground arith
    | inr k ↦ elim (Option-cases (find_index? (λ b. is_soft b.blocking_type) actions)) [
      | inl o ↦
          simp (e, k, o)
            (sym (ap (λ x. is_before x (index_in_run actions)) o) ∙ soft_in_run actions)
      | inr (i, o) ↦ ground (arith, soft_in_run actions)
    ]
  ]
]

index_or-shift :
    (s n : ℕ) (o : Option ℕ) → index_or (Option.map (λ i. s + i) o) (s + n) ≡ s + index_or o n
index_or-shift s n none = refl
index_or-shift s n (some i) = refl

is_before-shift :
    (s n : ℕ) (o : Option ℕ) → is_before (Option.map (λ i. s + i) o) (s + n) ≡ is_before o n
is_before-shift s n none = refl
is_before-shift s n (some i) = ground arith

length-drop {ℓ} :
    {A : Type ℓ} (s : ℕ) (xs : List A) → s ≤ length xs → length xs ≡ s + length (drop s xs)
length-drop zero xs h = omega arith
length-drop (suc s) [] h = absurd (omega arith)
length-drop (suc s) (x ∷ xs) h = omega (arith, length-drop s xs)

length-found {ℓ} :
    {A : Type ℓ} (p : A → Bool) (xs : List A) (i : ℕ) → find_index? p xs ≡ some i → i < length xs
length-found p [] i e = absurd (ground arith)
length-found p (x ∷ xs) i e = elim (Option-cases (find_index? p xs)) [
  | inl none_found ↦ ground arith
  | inr (j, found) ↦ ground (arith, length-found p xs j found)
]

after_start-in_range :
    (after : Option Action) (actions : List Action) → after_start after actions ≤ length actions
unfolding index_of
after_start-in_range none actions = omega arith
after_start-in_range (some a) actions = elim (Option-cases (index_of a actions)) [
  | inl e ↦ ground arith
  | inr (i, e) ↦ ground (arith, length-found (has_id_of a) actions i e)
]

module _ (after : Option Action) (actions : List Action) where
  abbrev pub left_over : List Action
  left_over = drop (after_start after actions) actions

  all_length : length actions ≡ after_start after actions + length left_over
  all_length = length-drop (after_start after actions) actions (after_start-in_range after actions)

  pub stop_index-lem :
      (next_chunk after actions).stop_index ≡ after_start after actions + index_in_run left_over
  unfolding next_chunk find_from
  stop_index-lem =
      ap
        (index_or (
          Option.map (λ i. after_start after actions + i)
            (find_index? (λ a. is_hard a.blocking_type) left_over)))
        all_length
      ∙ index_or-shift (after_start after actions) (length left_over)
          (find_index? (λ a. is_hard a.blocking_type) left_over)
      ∙ ap (λ n. after_start after actions + n) (run_end left_over)

  pub stop_driving-lem :
      (next_chunk after actions).stop_driving
      ≡ any (λ a. is_soft a.blocking_type) (take_while is_free left_over)
  unfolding next_chunk find_from
  stop_driving-lem =
      ap
        (is_before (
          Option.map (λ i. after_start after actions + i)
            (find_index? (λ a. is_soft a.blocking_type) left_over)))
        stop_index-lem
      ∙ is_before-shift (after_start after actions) (index_in_run left_over)
          (find_index? (λ a. is_soft a.blocking_type) left_over)
      ∙ soft_in_run left_over

pub take_from_start :
    (s : ℕ) (actions rest : List Action)
    → drop s actions ≡ rest
    → slice s (s + index_in_run rest) actions ≡ take_while is_free rest
take_from_start s actions rest e =
    let d : (s + index_in_run rest) - s ≡ index_in_run rest = omega arith in
    ap (λ n. take n (drop s actions)) d ∙ ap (take (index_in_run rest)) e ∙ take_run rest
