-- ===== src/Common/Decimal/RoundTrip.antt =====
-- `parseInt` reads back the numeral that `toString` writes.
use Prim.Native.Char.{code}
use Prim.Native.Nat.{ℕ, zero, suc, ◌+◌, ◌*◌, ◌/◌, ◌%◌, ◌<◌}
use Prim.Native.String.{String}
use mathlib.Core.Path.{◌≡◌, refl, ◌∙◌, ap}
use mathlib.Core.Logic.{inl, inr}
use mathlib.Core.Bool.{Bool, true, false}
use mathlib.Core.Option.{some}
use native.Mathlib.Omega.{arith}
use vda_5050_lib_js.Common.Tests.{◌==◌, eq_ℕ, Bool-cases}
use vda_5050_lib_js.Common.Decimal.{
  digit, digits_before, is_digit, more_digits, parse_int, to_string, unsigned,
}

more_digits-digit :
    (d a : ℕ) (s : String)
    → d < 10
    → more_digits a (String.◌∷◌ (digit d) s) ≡ more_digits (a * 10 + d) s
unfolding more_digits digit
more_digits-digit zero a s h = ap (λ k. more_digits k s) (omega arith)
more_digits-digit (suc zero) a s h = ap (λ k. more_digits k s) (omega arith)
more_digits-digit (suc (suc zero)) a s h = ap (λ k. more_digits k s) (omega arith)
more_digits-digit (suc (suc (suc zero))) a s h = ap (λ k. more_digits k s) (omega arith)
more_digits-digit (suc (suc (suc (suc zero)))) a s h = ap (λ k. more_digits k s) (omega arith)
more_digits-digit (suc (suc (suc (suc (suc zero))))) a s h = ap (λ k. more_digits k s) (omega arith)
more_digits-digit (suc (suc (suc (suc (suc (suc zero)))))) a s h =
    ap (λ k. more_digits k s) (omega arith)
more_digits-digit (suc (suc (suc (suc (suc (suc (suc zero))))))) a s h =
    ap (λ k. more_digits k s) (omega arith)
more_digits-digit (suc (suc (suc (suc (suc (suc (suc (suc zero)))))))) a s h =
    ap (λ k. more_digits k s) (omega arith)
more_digits-digit (suc (suc (suc (suc (suc (suc (suc (suc (suc zero))))))))) a s h =
    ap (λ k. more_digits k s) (omega arith)
more_digits-digit (suc (suc (suc (suc (suc (suc (suc (suc (suc (suc d)))))))))) a s h =
    absurd (omega arith)

abbrev first_digit : String → Bool
first_digit String.[] = false
first_digit (String.◌∷◌ c s) = is_digit (code c)

first_digit-digit : (d : ℕ) (s : String) → d < 10 → first_digit (String.◌∷◌ (digit d) s) ≡ true
unfolding digit
first_digit-digit zero s h = refl
first_digit-digit (suc zero) s h = refl
first_digit-digit (suc (suc zero)) s h = refl
first_digit-digit (suc (suc (suc zero))) s h = refl
first_digit-digit (suc (suc (suc (suc zero)))) s h = refl
first_digit-digit (suc (suc (suc (suc (suc zero))))) s h = refl
first_digit-digit (suc (suc (suc (suc (suc (suc zero)))))) s h = refl
first_digit-digit (suc (suc (suc (suc (suc (suc (suc zero))))))) s h = refl
first_digit-digit (suc (suc (suc (suc (suc (suc (suc (suc zero)))))))) s h = refl
first_digit-digit (suc (suc (suc (suc (suc (suc (suc (suc (suc zero))))))))) s h = refl
first_digit-digit (suc (suc (suc (suc (suc (suc (suc (suc (suc (suc d)))))))))) s h =
    absurd (omega arith)

-- The digits before a text stand for the number, and start with a digit.
digits_before_lem :
    (fuel n : ℕ) (s : String)
    → n < fuel
    → (more_digits 0 (digits_before fuel n s) ≡ more_digits n s)
      × (first_digit (digits_before fuel n s) ≡ true)
unfolding digits_before
digits_before_lem zero n s h = absurd (omega arith)
digits_before_lem (suc fuel) n s h =
    let longer = String.◌∷◌ (digit (n % 10)) s in
    elim (Bool-cases (n / 10 == 0)) [
      | inl e ↦
          let small : 0 * 10 + n % 10 ≡ n = ground arith in
          rw e (
            more_digits-digit (n % 10) 0 s (omega arith) ∙ ap (λ k. more_digits k s) small,
            first_digit-digit (n % 10) s (omega arith),
          )
      | inr e ↦
          let whole : n / 10 * 10 + n % 10 ≡ n = omega arith in
          let (value, first) = digits_before_lem fuel (n / 10) longer (ground arith) in
          rw e (
            value
                ∙ more_digits-digit (n % 10) (n / 10) s (omega arith)
                ∙ ap (λ k. more_digits k s) whole,
            first,
          )
    ]

parse_int-first_digit : (s : String) → first_digit s ≡ true → parse_int s ≡ some (more_digits 0 s)
unfolding parse_int unsigned more_digits
parse_int-first_digit String.[] h = absurd (ground arith)
parse_int-first_digit (String.◌∷◌ c s) h = ground arith

-- A number is read back.
pub parse_int-to_string : (n : ℕ) → parse_int (to_string n) ≡ some n
unfolding to_string more_digits
parse_int-to_string n =
    let (value, first) = digits_before_lem (suc n) n "" (omega arith) in
    parse_int-first_digit (to_string n) first ∙ ap some value
