-- ===== src/Master/Stitching/Bases.antt =====
-- The base of an order that is stitched to, on the master's side and on the vehicle's:
-- `_dispatchOrderState` of src/controller/master-controller.ts and `_acceptOrder` of src/controller/
-- agv-controller.ts.
use mathlib.Core.Option
use vda_5050_lib_js.Common.Map
use vda_5050_lib_js.Common.{
  All, Bool, Bool-cases, List, Option, Option-cases, [], ap, eq_Bool, eq_Option, eq_String, eq_ℕ,
  find_index?, if◌then◌else◌, inl, inr, map, none, not, refl, some, suc, take_while, true, ℕ, ◌∙◌,
  ◌∷◌, ◌≡◌,
}
use vda_5050_lib_js.Vda.{Action, Node, eq_AgvId}
use vda_5050_lib_js.Common.Map.{Map}
use vda_5050_lib_js.Master.Controller.{NodeObject}
use vda_5050_lib_js.Master.Stitching.{base_of, last_base_end, node_released, slice_to}

-- A node with the actions that it has by now.
abbrev pub node_of : Map ℕ (List Action) → NodeObject → Node
node_of m n = record n.node { actions = Option.get_or (Map.get n.identity m) n.node.actions }

slice_to-suc {ℓ} :
    {A : Type ℓ} (x : A) (o : Option ℕ) (xs : List A)
    → slice_to (Option.map suc o) (x ∷ xs) ≡ x ∷ slice_to o xs
slice_to-suc x none xs = refl
slice_to-suc x (some i) xs = refl

pub base_of-take_while {ℓ} :
    {A : Type ℓ} (released : A → Bool) (xs : List A) → base_of released xs ≡ take_while released xs
base_of-take_while released [] = refl
base_of-take_while released (x ∷ xs) = elim (Bool-cases (released x)) [
  | inr e ↦ simp e
  | inl e ↦ simp e (
      slice_to-suc x (find_index? (λ y. not (released y)) xs) xs
      ∙ ap (λ l. x ∷ l) (base_of-take_while released xs))
]

pub take_while-cons {ℓ} :
    {A : Type ℓ} (p : A → Bool) (x : A) (xs : List A)
    → p x ≡ true
    → take_while p (x ∷ xs) ≡ x ∷ take_while p xs
take_while-cons p x xs e = ap (λ b. if b then x ∷ take_while p xs else []) e

pub take_while-map {ℓ κ} :
    {A : Type ℓ} {B : Type κ} (f : A → B) (p : B → Bool) (xs : List A)
    → take_while p (map f xs) ≡ map f (take_while (λ x. p (f x)) xs)
take_while-map f p [] = refl
take_while-map f p (x ∷ xs) = elim (Bool-cases (p (f x))) [
  | inl e ↦ simp e (ap (λ l. f x ∷ l) (take_while-map f p xs))
  | inr e ↦ simp e
]

-- The end of the base that starts with a node.
abbrev pub end_of : NodeObject → List NodeObject → NodeObject
end_of o [] = o
end_of o (p ∷ ps) = if p.node.released then end_of p ps else o

pub last_base_end_lem :
    (o : NodeObject) (os : List NodeObject)
    → o.node.released ≡ true
    → last_base_end (o ∷ os) ≡ some (end_of o os)
last_base_end_lem o [] h = simp h
last_base_end_lem o (p ∷ ps) h = elim (Bool-cases p.node.released) [
  | inr e ↦ simp (h, e)
  | inl e ↦
      let ih = last_base_end_lem p ps e in
      elim (Option-cases (find_index? (λ n. not (node_released n)) ps)) [
        | inl f ↦ simp (h, e, f) (simp (e, f) at ih)
        | inr (i, f) ↦ simp (h, e, f) (simp (e, f) at ih)
      ]
]

module _ (P : NodeObject → Type 0) where
  pub end_of-All : (o : NodeObject) (os : List NodeObject) → P o → All P os → P (end_of o os)
  end_of-All o [] h t = h
  end_of-All o (p ∷ ps) h (k, t) = elim (Bool-cases p.node.released) [
    | inl e ↦ simp e (end_of-All p ps k t)
    | inr e ↦ simp e h
  ]
