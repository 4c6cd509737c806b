-- ===== src/Common/Map.antt =====
-- `Map` as an association list in insertion order. `set` on a present key keeps its place, and
-- every key stands once in a map that only these operations build.
use mathlib.Core.Path.{◌≡◌, refl}
use mathlib.Core.Bool.{Bool}
use mathlib.Core.List.{List, [], ◌∷◌}
use mathlib.Core.Option.{Option, none, some}
use mathlib.Core.Logic.{◌≢◌, inl, inr}
use native.Mathlib.Omega.{arith}
use vda_5050_lib_js.Common.{
  ==_refl, All, Bool-cases, Eq, eq_Bool, eq_Option, eq_String, eq_of_==, eq_ℕ, if◌then◌else◌,
  is_some, ◌==◌,
}
use vda_5050_lib_js.Vda.{eq_AgvId}

abbrev pub Map {ℓ κ} : Type ℓ → Type κ → Type (ℓ ⊔ κ)
Map K V = List (K × V)

module _ {ℓ κ} {K : Type ℓ} {V : Type κ} ⦃e : Eq K⦄ where
  unfoldable pub get : K → Map K V → Option V
  get k [] = none
  get k ((j, v) ∷ m) = if j == k then some v else get k m

  unfoldable pub set : K → V → Map K V → Map K V
  set k v [] = (k, v) ∷ []
  set k v ((j, w) ∷ m) = if j == k then (j, v) ∷ m else (j, w) ∷ set k v m

  unfoldable pub delete : K → Map K V → Map K V
  delete k [] = []
  delete k ((j, w) ∷ m) = if j == k then m else (j, w) ∷ delete k m

  unfoldable pub has : K → Map K V → Bool
  unfolding get
  has k m = is_some (get k m)

  -- No entry for the key.
  abbrev pub Lacks : K → Map K V → Type ℓ
  Lacks k m = All (λ (b : K × V). b.0 ≢ k) m

  -- The keys are distinct.
  abbrev pub IsMap : Map K V → Type ℓ
  IsMap [] = Unit
  IsMap ((j, w) ∷ m) = Lacks j m × IsMap m

  pub get-set_self : (k : K) (v : V) (m : Map K V) → get k (set k v m) ≡ some v
  unfolding get set
  get-set_self k v [] = rw (==_refl k)
  get-set_self k v ((j, w) ∷ m) = elim (Bool-cases (j == k)) [
    | inl same ↦ rw (same, get) (rw same)
    | inr other ↦ rw (other, get) (rw other (get-set_self k v m))
  ]

  pub get-set_ne : (k j : K) (v : V) (m : Map K V) → k ≢ j → get j (set k v m) ≡ get j m
  unfolding get set
  get-set_ne k j v [] h = ground (arith, e.same_iff k j)
  get-set_ne k j v ((i, w) ∷ m) h =
      ground (arith, e.same_iff i k, e.same_iff i j, get-set_ne k j v m)

  pub get_of_Lacks : (k : K) (m : Map K V) → Lacks k m → get k m ≡ none
  unfolding get
  get_of_Lacks k [] h = refl
  get_of_Lacks k ((j, w) ∷ m) h = ground (arith, e.same_iff j k, get_of_Lacks k m)

  pub get-delete_self : (k : K) (m : Map K V) → IsMap m → get k (delete k m) ≡ none
  unfolding get delete
  get-delete_self k [] h = refl
  get-delete_self k ((j, w) ∷ m) (l, h) = elim (Bool-cases (j == k)) [
    | inl same ↦ rw same (get_of_Lacks k m (rw (eq_of_== j k same) at l))
    | inr other ↦ rw (other, get) (rw other (get-delete_self k m h))
  ]

  pub get-delete_ne : (k j : K) (m : Map K V) → k ≢ j → get j (delete k m) ≡ get j m
  unfolding get delete
  get-delete_ne k j [] h = refl
  get-delete_ne k j ((i, w) ∷ m) h =
      ground (arith, e.same_iff i k, e.same_iff i j, get-delete_ne k j m)

  pub set-Lacks : (j k : K) (v : V) (m : Map K V) → k ≢ j → Lacks j m → Lacks j (set k v m)
  unfolding set
  set-Lacks j k v [] h l = (h, tt)
  set-Lacks j k v ((i, w) ∷ m) h l = ground (arith, set-Lacks j k v m)

  pub delete-Lacks : (j k : K) (m : Map K V) → Lacks j m → Lacks j (delete k m)
  unfolding delete
  delete-Lacks j k [] l = tt
  delete-Lacks j k ((i, w) ∷ m) l = ground (arith, delete-Lacks j k m)

  pub set-IsMap : (k : K) (v : V) (m : Map K V) → IsMap m → IsMap (set k v m)
  unfolding set
  set-IsMap k v [] h = (tt, tt)
  set-IsMap k v ((i, w) ∷ m) h =
      ground (arith, e.same_iff i k, e.same_iff k i, set-IsMap k v m, set-Lacks i k v m)

  pub delete-IsMap : (k : K) (m : Map K V) → IsMap m → IsMap (delete k m)
  unfolding delete
  delete-IsMap k [] h = tt
  delete-IsMap k ((i, w) ∷ m) h = ground (arith, delete-IsMap k m, delete-Lacks i k m)

  -- A property of all values.
  module _ (P : V → Type 0) where
    pub All-set :
        (k : K) (v : V) (m : Map K V) → P v → All (λ b. P b.1) m → All (λ b. P b.1) (set k v m)
    unfolding set
    All-set k v [] h a = (h, tt)
    All-set k v ((j, w) ∷ m) h (b, a) = elim (Bool-cases (j == k)) [
      | inl same ↦ simp same (h, a)
      | inr other ↦ simp other (b, All-set k v m h a)
    ]

    pub All-delete : (k : K) (m : Map K V) → All (λ b. P b.1) m → All (λ b. P b.1) (delete k m)
    unfolding delete
    All-delete k [] a = tt
    All-delete k ((j, w) ∷ m) (b, a) = elim (Bool-cases (j == k)) [
      | inl same ↦ simp same a
      | inr other ↦ simp other (b, All-delete k m a)
    ]

    pub All-get : (k : K) (v : V) (m : Map K V) → All (λ b. P b.1) m → get k m ≡ some v → P v
    unfolding get
    All-get k v [] a e = cc
    All-get k v ((j, w) ∷ m) (b, a) e = elim (Bool-cases (j == k)) [
      | inl same ↦ let here : w ≡ v = ground arith in rw⁻¹ here b
      | inr other ↦ let there : get k m ≡ some v = ground arith in All-get k v m a there
    ]
