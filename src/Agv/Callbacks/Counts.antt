-- ===== src/Agv/Callbacks/Counts.antt =====
-- The counts of publications that `_cleanupInstantActionStates` goes through.
use vda_5050_lib_js.Common.Map
use vda_5050_lib_js.Common.{
  Bool, Eq, [], any, arith, eq_Option, eq_String, eq_ℕ, false, none, refl, some, suc, true, ℕ, ◌<◌,
  ◌==◌, ◌∷◌, ◌≡◌, ◌≤◌,
}
use vda_5050_lib_js.Common.Map.{IsMap, Lacks, Map}
use vda_5050_lib_js.Agv.Callbacks.Cleanup.{expired_keys, visit_all}

module _ {ℓ} {K : Type ℓ} ⦃e : Eq K⦄ (counts : K → Bool) (final : ℕ) where
  visit_all-Lacks : (k : K) (m : Map K ℕ) → Lacks k m → Lacks k (visit_all counts final m)
  unfolding visit_all
  visit_all-Lacks k [] h = tt
  visit_all-Lacks k ((j, n) ∷ m) h = ground (arith, visit_all-Lacks k m)

  pub visit_all-IsMap : (m : Map K ℕ) → IsMap m → IsMap (visit_all counts final m)
  unfolding visit_all
  visit_all-IsMap [] h = tt
  visit_all-IsMap ((j, n) ∷ m) h = ground (arith, visit_all-IsMap m, visit_all-Lacks j m)

  expired_keys-Lacks :
      (k : K) (m : Map K ℕ) → Lacks k m → any (λ j. j == k) (expired_keys counts final m) ≡ false
  unfolding expired_keys
  expired_keys-Lacks k [] h = refl
  expired_keys-Lacks k ((j, n) ∷ m) h = ground (arith, e.same_iff j k, expired_keys-Lacks k m)

  -- An entry that counts is counted up.
  pub visit_all-counted :
      (k : K) (n : ℕ) (m : Map K ℕ)
      → IsMap m
      → counts k ≡ true
      → suc n < final
      → Map.get k m ≡ some n
      → (Map.get k (visit_all counts final m) ≡ some (suc n))
        × (any (λ j. j == k) (expired_keys counts final m) ≡ false)
  unfolding Map.get visit_all expired_keys
  visit_all-counted k n [] s c h g = absurd (ground arith)
  visit_all-counted k n ((j, i) ∷ m) s c h g =
      ground
        (arith, e.same_iff j k, visit_all-counted k n m, expired_keys-Lacks k m, e.same_iff k j)

  -- At the final count it is removed.
  pub visit_all-expired :
      (k : K) (n : ℕ) (m : Map K ℕ)
      → IsMap m
      → counts k ≡ true
      → final ≤ suc n
      → Map.get k m ≡ some n
      → (Map.get k (visit_all counts final m) ≡ none)
        × (any (λ j. j == k) (expired_keys counts final m) ≡ true)
  unfolding Map.get visit_all expired_keys
  visit_all-expired k n [] s c h g = absurd (ground arith)
  visit_all-expired k n ((j, i) ∷ m) s c h g = ground (
    arith,
    e.same_iff j k,
    visit_all-expired k n m,
    Map.get_of_Lacks k (visit_all counts final m),
    visit_all-Lacks k m,
  )
