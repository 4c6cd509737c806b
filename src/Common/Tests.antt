-- ===== src/Common/Tests.antt =====
-- Boolean tests: orders on numbers, the conditional, and equality (`===`) as an instance.
use Prim.Native.Nat.{ℕ, compare, Ordering}
use Prim.Native.String.{String}
use mathlib.Core.Path.{◌≡◌, refl}
use mathlib.Core.Logic.{◌≢◌, ◌↔◌, ◌⊎◌, inl, inr}
use mathlib.Core.Bool.{Bool, true, false, not}
use mathlib.Core.Option.{Option, none, some}
use native.Mathlib.Omega.{arith}
use text.Mathlib.Text.{◌==◌ as str_eq}
use text.Mathlib.TextEquality.{eq_iff}

abbrev pub ltb : ℕ → ℕ → Bool
ltb a b = elim (compare a b) [ Ordering.lt ↦ true | _ ↦ false ]

abbrev pub leb : ℕ → ℕ → Bool
leb a b = elim (compare a b) [ Ordering.gt ↦ false | _ ↦ true ]

abbrev nat_eq : ℕ → ℕ → Bool
nat_eq a b = elim (compare a b) [ Ordering.eq ↦ true | _ ↦ false ]

infix 1 if◌then◌else◌
abbrev pub if◌then◌else◌ {ℓ} : {A : Type ℓ} → Bool → A → A → A
if true then x else y = x
if false then x else y = y

-- `===` at a type: a test, which holds exactly for equal values.
pub record Eq {ℓ} (T : Type ℓ) : Type ℓ where
  pub same : T → T → Bool
  pub same_iff : (x y : T) → (same x y ≡ true) ↔ (x ≡ y)

pub nat_eq_iff : (a b : ℕ) → (nat_eq a b ≡ true) ↔ (a ≡ b)
nat_eq_iff a b = ground arith

instance abbrev pub eq_ℕ : Eq ℕ
eq_ℕ = record { same_iff = nat_eq_iff; same = nat_eq }

instance abbrev pub eq_String : Eq String
eq_String = record { same_iff = eq_iff; same = str_eq }

module _ {ℓ} {T : Type ℓ} ⦃q : Eq T⦄ where
  infix 50 ◌==◌ ◌!=◌
  abbrev pub ◌==◌ : T → T → Bool
  x == y = q.same x y

  abbrev pub ◌!=◌ : T → T → Bool
  x != y = not (q.same x y)

-- An optional value: `undefined` equals itself only.
abbrev pub opt_eq {ℓ} : {A : Type ℓ} → (A → A → Bool) → Option A → Option A → Bool
opt_eq f none none = true
opt_eq f (some a) (some b) = f a b
opt_eq f _ _ = false

pub opt_eq_iff {ℓ} :
    {A : Type ℓ} (f : A → A → Bool)
    → ((a b : A) → (f a b ≡ true) ↔ (a ≡ b))
    → (x y : Option A) → (opt_eq f x y ≡ true) ↔ (x ≡ y)
opt_eq_iff f h none none = (λ _. refl, λ _. refl)
opt_eq_iff f h none (some b) = (λ e. cc, λ e. cc)
opt_eq_iff f h (some a) none = (λ e. cc, λ e. cc)
opt_eq_iff f h (some a) (some b) = (λ e. cc ((h a b).0 e), λ e. (h a b).1 (cc))

instance abbrev pub eq_Option {ℓ} : {A : Type ℓ} ⦃e : Eq A⦄ → Eq (Option A)
eq_Option ⦃e⦄ = record { same_iff = opt_eq_iff e.same e.same_iff; same = opt_eq e.same }

pub ==_refl {ℓ} : {A : Type ℓ} ⦃e : Eq A⦄ (a : A) → (a == a) ≡ true
==_refl ⦃e⦄ a = (e.same_iff a a).1 refl

pub eq_of_== {ℓ} : {A : Type ℓ} ⦃e : Eq A⦄ (a b : A) → (a == b) ≡ true → a ≡ b
eq_of_== ⦃e⦄ a b h = (e.same_iff a b).0 h

pub Bool-cases : (b : Bool) → (b ≡ true) ⊎ (b ≡ false)
Bool-cases true = inl refl
Bool-cases false = inr refl

pub Option-cases {ℓ} : {A : Type ℓ} (o : Option A) → (o ≡ none) ⊎ ((a : A) × (o ≡ some a))
Option-cases none = inl refl
Option-cases (some a) = inr (a, refl)

abbrev pub is_some {ℓ} : {A : Type ℓ} → Option A → Bool
is_some none = false
is_some (some a) = true

pub ne_of_== {ℓ} : {A : Type ℓ} ⦃e : Eq A⦄ (a b : A) → (a == b) ≡ false → a ≢ b
ne_of_== ⦃e⦄ a b h same = let t : (a == b) ≡ true = (e.same_iff a b).1 same in cc

abbrev bool_eq : Bool → Bool → Bool
bool_eq true b = b
bool_eq false b = not b

pub bool_eq_iff : (a b : Bool) → (bool_eq a b ≡ true) ↔ (a ≡ b)
bool_eq_iff true true = (λ e. refl, λ e. refl)
bool_eq_iff true false = (λ e. cc, λ e. cc)
bool_eq_iff false true = (λ e. cc, λ e. cc)
bool_eq_iff false false = (λ e. refl, λ e. refl)

instance abbrev pub eq_Bool : Eq Bool
eq_Bool = record { same_iff = bool_eq_iff; same = bool_eq }

pub ==_of_eq {ℓ} : {A : Type ℓ} ⦃e : Eq A⦄ (a b : A) → a ≡ b → (a == b) ≡ true
==_of_eq ⦃e⦄ a b h = (e.same_iff a b).1 h
