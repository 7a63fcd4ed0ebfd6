-- ===== src/IntMath/Tests.antt =====
-- Runs of base/src/int_math_stubs.c, and each theorem at one input.
use ppx_universe.Base.{ℕ, zero, suc, ◌+◌, ◌-◌, ◌/◌, ◌%◌, ◌^◌, ◌≡◌, refl, arith, some}
use ppx_universe.Bng.Compare.{bng_leading_zero_bits}
use ppx_universe.Bng.Compare.Normalize.{bng_leading_zero_bits_lem}
use ppx_universe.IntMath.{PowState, int_pow, int_pow_loop, pow_round, int_ctz_untagged, int_ctz}
use ppx_universe.IntMath.Power.{int_pow_lem}
use ppx_universe.IntMath.Counts.{IsClzll, int_ctz-low_zeros}

int_pow_runs : int_pow 3 41 ≡ some (3 ^ 41 % 2 ^ 64)
unfolding int_pow int_pow_loop pow_round
int_pow_runs = refl

int_pow_lem_example : int_pow 7 30 ≡ some (7 ^ 30 % 2 ^ 64)
int_pow_lem_example = int_pow_lem 7 30 (omega arith)

-- The exponent -1.
abbrev endless : PowState
endless = record { ret = 1; mul1 = 3; mul3 = 1; exponent = 2 ^ 64 - 1 }

-- The bits set among the lowest `n`.
abbrev count_bits : ℕ → ℕ → ℕ
count_bits zero v = 0
count_bits (suc n) v = v % 2 + count_bits n (v / 2)

leading_zero_bits-IsClzll : IsClzll bng_leading_zero_bits
leading_zero_bits-IsClzll = record {
  few = λ v pos h. (bng_leading_zero_bits_lem v pos h).0;
  high = λ v pos h. (bng_leading_zero_bits_lem v pos h).1;
  fits = λ v pos h. (bng_leading_zero_bits_lem v pos h).2;
}

int_ctz-low_zeros_example : int_ctz (count_bits 64) (2 ^ 40) ≡ int_ctz_untagged (count_bits 64) 0
int_ctz-low_zeros_example = int_ctz-low_zeros (count_bits 64) (2 ^ 40) (omega arith)
