-- ===== src/Common/Decimal.antt =====
-- Decimal numerals: `Number.prototype.toString` on the natural numbers, and `parseInt`. A number has
-- at most one digit more than its value, which is the fuel of the first.
pub mod RoundTrip
use Prim.Native.String
use Prim.Native.Char.{Char, code}
use Prim.Native.Nat.{ℕ, zero, suc, ◌+◌, ◌-◌, ◌*◌, ◌/◌, ◌%◌, ◌<◌}
use Prim.Native.String.{String}
use mathlib.Core.Path.{◌≡◌, refl}
use mathlib.Core.List.{List, [], ◌∷◌}
use mathlib.Core.Option
use mathlib.Core.Option.{Option, none, some}
use mathlib.Core.Bool.{Bool, ◌&&◌, ◌||◌}
use vda_5050_lib_js.Common.Tests.{if◌then◌else◌, ◌==◌, eq_ℕ, leb}
use vda_5050_lib_js.Common.Lists.{get_elem?}

abbrev numerals : List Char
numerals = "0" ∷ "1" ∷ "2" ∷ "3" ∷ "4" ∷ "5" ∷ "6" ∷ "7" ∷ "8" ∷ "9" ∷ []

digit : ℕ → Char
digit d = Option.get_or (get_elem? numerals d) "0"

digits_before : ℕ → ℕ → String → String
digits_before zero n s = s
digits_before (suc fuel) n s =
    let longer = String.◌∷◌ (digit (n % 10)) s in
    let rest = digits_before fuel (n / 10) longer in if n / 10 == 0 then longer else rest

unfoldable pub to_string : ℕ → String
unfolding digits_before digit
to_string n = digits_before (suc n) n ""

to_string_test : to_string 40960 ≡ "40960"
unfolding to_string
to_string_test = refl

-- `parseInt(s, 10)`: white space, a sign, and the digits before the first other character. `none`
-- stands for NaN and the negative numbers. A number beyond 2 ^ 53 would be rounded there; it is
-- exact here, and beyond every id of the protocol in both.
abbrev is_space : ℕ → Bool
is_space c =
    leb 9 c && leb c 13
    || c == 32
    || c == 160
    || c == 5760
    || leb 8192 c && leb c 8202
    || c == 8232
    || c == 8233
    || c == 8239
    || c == 8287
    || c == 12288
    || c == 65279

abbrev is_digit : ℕ → Bool
is_digit c = leb 48 c && leb c 57

-- The digits after the first one.
more_digits : ℕ → String → ℕ
more_digits n String.[] = n
more_digits n (String.◌∷◌ c s) =
    let rest = more_digits (n * 10 + (code c - 48)) s in if is_digit (code c) then rest else n

unsigned : String → Option ℕ
unfolding more_digits
unsigned String.[] = none
unsigned (String.◌∷◌ c s) = if is_digit (code c) then some (more_digits (code c - 48) s) else none

-- Minus zero is the key 0 of a map.
abbrev negated : Option ℕ → Option ℕ
negated (some zero) = some zero
negated _ = none

signed : String → Option ℕ
unfolding unsigned
signed String.[] = none
signed (String.◌∷◌ c s) =
    if code c == 45
    then negated (unsigned s)
    else if code c == 43
    then unsigned s
    else unsigned (String.◌∷◌ c s)

unfoldable pub parse_int : String → Option ℕ
unfolding signed
parse_int String.[] = none
parse_int (String.◌∷◌ c s) =
    let rest = parse_int s in if is_space (code c) then rest else signed (String.◌∷◌ c s)

parse_int_test : parse_int "  42,5" ≡ some 42
unfolding parse_int
parse_int_test = refl
