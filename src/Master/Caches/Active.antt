-- ===== src/Master/Caches/Active.antt =====
-- The search for the latest active order: `_getLastActiveOrderStateCache` of src/controller/
-- master-controller.ts ends, and its result is a cache that is still entered.
use vda_5050_lib_js.Common.{
  Bool-cases, Option, Option-cases, all, ap, arith, false, inl, inr, none, refl, some, suc, sym,
  true, zero, ℕ, ◌<◌, ◌∙◌, ◌≡◌, ◌⊎◌,
}
use vda_5050_lib_js.Vda.{AgvId}
use vda_5050_lib_js.Master.Controller.{MasterController}
use vda_5050_lib_js.Master.Caches.{get_last_active_order_state_cache, is_current, last_active}
use vda_5050_lib_js.Master.Consistent.{IsConsistent}

-- A cache that stands in the chain of last caches.
pub data Chain (c : MasterController) (k : ℕ) : ℕ → Type 0 where
  start : Chain c k k
  back : {i j : ℕ} → Chain c k i → (c.caches i).last_cache ≡ some j → Chain c k j

-- The number of a cache that is found is entered; otherwise the whole chain has been seen.
abbrev pub Answers : MasterController → AgvId → ℕ → Option ℕ → Type 0
Answers c a k none = (j : ℕ) → Chain c k j → is_current c a j ≡ false
Answers c a k (some j) = Chain c k j × (is_current c a j ≡ true)

module _ (c : MasterController) (v : IsConsistent c) (a : AgvId) where
  -- What the chain of a cache looks like from its first link.
  chain_cases :
      {k j : ℕ}
      → Chain c k j
      → (k ≡ j) ⊎ ((i : ℕ) × ((c.caches k).last_cache ≡ some i) × Chain c i j)
  chain_cases start = inl refl
  chain_cases (back {i} {j} r e) = elim (chain_cases r) [
    | inl same ↦ inr (j, ap (λ x. (c.caches x).last_cache) same ∙ e, start)
    | inr (m, f, s) ↦ inr (m, f, back s e)
  ]

  prepend : {k i j : ℕ} → (c.caches k).last_cache ≡ some i → Chain c i j → Chain c k j
  prepend e start = back start e
  prepend e (back r f) = back (prepend e r) f

  longer :
      (k i : ℕ) (r : Option ℕ)
      → is_current c a k ≡ false
      → (c.caches k).last_cache ≡ some i
      → Answers c a i r
      → Answers c a k r
  longer k i (some j) h e (chain, current) = (prepend e chain, current)
  longer k i none h e all = λ j chain. elim (chain_cases chain) [
    | inl same ↦ rw same at h
    | inr (m, f, rest) ↦ let same : i ≡ m = cc in all j (rw (sym same) at rest)
  ]

  last_active-ends :
      (fuel k : ℕ)
      → k < fuel
      → k < c.next_cache
      → (r : Option ℕ) × (last_active fuel c a k ≡ some r) × Answers c a k r
  unfolding last_active
  last_active-ends zero k h below = absurd (omega arith)
  last_active-ends (suc fuel) k h below = elim (Bool-cases (is_current c a k)) [
    | inl current ↦ (some k, rw (current, last_active) refl, (start, current))
    | inr other ↦ elim (Option-cases (c.caches k).last_cache) [
      | inl e ↦ (
        none,
        rw (other, last_active) (rw e refl),
        λ j chain. elim (chain_cases chain) [
          | inl same ↦ rw same at other
          | inr (m, f, rest) ↦ absurd (ground arith)
        ],
      )
      | inr (i, e) ↦
          let older : i < k = v.older k i below e in
          let (r, found, answers) = last_active-ends fuel i (omega arith) (omega arith) in
          (r, rw (other, last_active) (rw e found), longer k i r other e answers)
    ]
  ]

-- From the last cache of an order the search ends within the rounds that it is given. It yields a
-- cache of the chain that its ids still lead to, or else no cache of the chain is entered.
pub get_last_active-ends :
    (c : MasterController) (k last : ℕ)
    → IsConsistent c
    → last < c.next_cache
    → (r : Option ℕ) × (get_last_active_order_state_cache k last c ≡ some r)
      × Answers c (c.caches k).agv_id last r
unfolding get_last_active_order_state_cache
get_last_active-ends c k last v below =
    last_active-ends c v (c.caches k).agv_id (suc last) last (omega arith) below
