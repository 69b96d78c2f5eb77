-- ===== src/Match/Numbers.antt =====
-- Python's numbers: exact floats, their comparison, and the conversion of an int.
use agent_spec_kit.Common.{
  ℕ, zero, suc, ◌+◌, ◌-◌, ◌*◌, ◌/◌, ◌%◌, ◌^◌, Bool, true, false, ◌&&◌, ◌||◌, Option, none, some,
  if◌then◌else◌, ltb, leb, ◌==◌,
}
use agent_spec_kit.Common.Int.{ℤ, pos, negsuc, ltb_ℤ, eqb_ℤ}
use agent_spec_kit.Common.Outcome.{overflow_error, Outcome, returned, raised}
use agent_spec_kit.Match.Value.{Float, nan, pos_inf, neg_inf, finite, Value, bool, int, float}

-- An int as a multiple of 2 ^ -1074.
scale : ℤ → ℤ
scale (pos n) = pos (n * 2 ^ 1074)
scale (negsuc n) = negsuc ((n + 1) * 2 ^ 1074 - 1)

bit_length : ℕ → ℕ → ℕ
bit_length zero n = 0
bit_length (suc fuel) n = let rest = bit_length fuel (n / 2) in if n == 0 then 0 else rest + 1

-- Rounding to 53 significant bits, ties to even.
round_half_even : ℕ → ℕ
unfolding bit_length
round_half_even n =
    let bits = bit_length 1100 n in
    let ulp = 2 ^ (bits - 53) in
    let low = n % ulp in
    let high = n / ulp in
    if leb bits 53
    then n
    else if ltb (low + low) ulp || (low + low == ulp && high % 2 == 0)
    then high * ulp
    else (high + 1) * ulp

magnitude_to_float : (ℕ → ℤ) → ℕ → Outcome Float
unfolding round_half_even scale
magnitude_to_float sign n =
    if leb (2 ^ 1025) n || leb (2 ^ 1024) (round_half_even n)
    then raised overflow_error
    else returned (finite (scale (sign (round_half_even n))))

abbrev negate : ℕ → ℤ
negate zero = pos 0
negate (suc n) = negsuc n

-- `float(n)` of an int: the nearest double, or OverflowError.
unfoldable pub int_to_float : ℤ → Outcome Float
unfolding magnitude_to_float
int_to_float (pos n) = magnitude_to_float pos n
int_to_float (negsuc n) = magnitude_to_float negate (n + 1)

-- Comparison of floats. A NaN is below nothing, above nothing and equal to nothing.
unfoldable pub float_lt : Float → Float → Bool
float_lt nan y = false
float_lt x nan = false
float_lt neg_inf neg_inf = false
float_lt neg_inf y = true
float_lt (finite a) (finite b) = ltb_ℤ a b
float_lt (finite a) pos_inf = true
float_lt x y = false

unfoldable pub float_eq : Float → Float → Bool
float_eq pos_inf pos_inf = true
float_eq neg_inf neg_inf = true
float_eq (finite a) (finite b) = eqb_ℤ a b
float_eq x y = false

-- The exact number that a bool, an int or a float stands for.
unfoldable pub number_of : Value → Option Float
unfolding scale
number_of (bool b) = some (finite (scale (pos (if b then 1 else 0))))
number_of (int n) = some (finite (scale n))
number_of (float x) = some x
number_of _ = none
