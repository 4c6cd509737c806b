-- ===== src/Mqtt/Topics/Levels.antt =====
-- Splitting a topic into its levels undoes joining them, and levels are found where they are set.
use Prim.Native.String
use Prim.Native.String.append
use Prim.Native.Char.{Char, char}
use vda_5050_lib_js.Common.{
  All, Bool-cases, List, Option-cases, String, [], ap, arith, eq_Option, eq_String, eq_of_==, eq_ℕ,
  false, get_elem?, inl, inr, length, refl, set, some, suc, zero, ℕ, ◌<◌, ◌==◌, ◌∙◌, ◌∷◌, ◌≡◌, ◌≢◌,
}
use vda_5050_lib_js.Mqtt.Topics.{index_of_level, join, prepend, split}

abbrev slash_char : Char
slash_char = char 47 tt

-- A topic level: it has no separator.
abbrev pub NoSlash : String → Type 0
NoSlash String.[] = Unit
NoSlash (String.◌∷◌ c s) = ((String.◌∷◌ c String.[] == "/") ≡ false) × NoSlash s

prepend-NoSlash :
    (c : Char) (ls : List String)
    → (String.◌∷◌ c String.[] == "/") ≡ false
    → All NoSlash ls
    → All NoSlash (prepend c ls)
prepend-NoSlash c [] e h = ((e, tt), tt)
prepend-NoSlash c (l ∷ ls) e (h, t) = ((e, h), t)

pub split-NoSlash : (s : String) → All NoSlash (split s)
unfolding split
split-NoSlash String.[] = (tt, tt)
split-NoSlash (String.◌∷◌ c s) = elim (Bool-cases (String.◌∷◌ c String.[] == "/")) [
  | inl e ↦ simp e (tt, split-NoSlash s)
  | inr e ↦ simp e (prepend-NoSlash c (split s) e (split-NoSlash s))
]

split_level : (l : String) → NoSlash l → split l ≡ l ∷ []
unfolding split
split_level String.[] h = refl
split_level (String.◌∷◌ c s) (e, h) = simp e (ap (prepend c) (split_level s h))

split_first :
    (l rest : String) → NoSlash l → split (String.◌++◌ l (String.◌++◌ "/" rest)) ≡ l ∷ split rest
unfolding split
split_first String.[] rest h =
    ap split (append.nil (String.◌++◌ "/" rest))
    ∙ ap split (append.cons slash_char String.[] rest)
    ∙ ap (λ s. split (String.◌∷◌ slash_char s)) (append.nil rest)
split_first (String.◌∷◌ c s) rest (e, h) =
    ap split (append.cons c s (String.◌++◌ "/" rest))
    ∙ simp e (ap (prepend c) (split_first s rest h))

split-join_cons :
    (l : String) (ls : List String) → All NoSlash (l ∷ ls) → split (join (l ∷ ls)) ≡ l ∷ ls
unfolding join
split-join_cons l [] (h, t) = split_level l h
split-join_cons l (k ∷ ls) (h, t) =
    split_first l (join (k ∷ ls)) h ∙ ap (λ r. l ∷ r) (split-join_cons k ls t)

pub split-join : (ls : List String) → 0 < length ls → All NoSlash ls → split (join ls) ≡ ls
split-join [] n h = absurd (omega arith)
split-join (l ∷ ls) n h = split-join_cons l ls h

module _ {ℓ} {A : Type ℓ} where
  pub bound_of_get : (xs : List A) (i : ℕ) (x : A) → get_elem? xs i ≡ some x → i < length xs
  bound_of_get [] i x e = cc
  bound_of_get (y ∷ xs) zero x e = omega arith
  bound_of_get (y ∷ xs) (suc i) x e = omega (arith, bound_of_get xs i x e)

  pub get-set_self :
      (xs : List A) (i : ℕ) (v : A) → i < length xs → get_elem? (set xs i v) i ≡ some v
  get-set_self [] i v h = absurd (omega arith)
  get-set_self (x ∷ xs) zero v h = refl
  get-set_self (x ∷ xs) (suc i) v h = get-set_self xs i v (omega arith)

  pub get-set_ne :
      (xs : List A) (i j : ℕ) (v : A) → i ≢ j → get_elem? (set xs i v) j ≡ get_elem? xs j
  get-set_ne [] i j v h = refl
  get-set_ne (x ∷ xs) zero zero v h = absurd (h refl)
  get-set_ne (x ∷ xs) zero (suc j) v h = refl
  get-set_ne (x ∷ xs) (suc i) zero v h = refl
  get-set_ne (x ∷ xs) (suc i) (suc j) v h = get-set_ne xs i j v (λ e. h (ap suc e))

  pub length-set : (xs : List A) (i : ℕ) (v : A) → length (set xs i v) ≡ length xs
  length-set [] i v = refl
  length-set (x ∷ xs) zero v = refl
  length-set (x ∷ xs) (suc i) v = ap suc (length-set xs i v)

  pub set-All {κ} :
      (Holds : A → Type κ) (xs : List A) (i : ℕ) (v : A)
      → Holds v
      → All Holds xs
      → All Holds (set xs i v)
  set-All Holds [] i v h a = tt
  set-All Holds (x ∷ xs) zero v h (b, a) = (h, a)
  set-All Holds (x ∷ xs) (suc i) v h (b, a) = (b, set-All Holds xs i v h a)

-- A placeholder stands at its index.
pub index_of_level-get :
    (p : String) (ls : List String) (i : ℕ) → index_of_level p ls ≡ some i → get_elem? ls i ≡ some p
index_of_level-get p [] i e = cc
index_of_level-get p (l ∷ ls) i e = elim (Bool-cases (l == p)) [
  | inl same ↦ ground (arith, eq_of_== l p)
  | inr other ↦ elim (Option-cases (index_of_level p ls)) [
    | inl none_found ↦ absurd (ground arith)
    | inr (j, found) ↦ ground (arith, index_of_level-get p ls j)
  ]
]
