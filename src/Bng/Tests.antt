-- ===== src/Bng/Tests.antt =====
-- Runs of the operations of num/src/bng.c on small numbers, and each theorem at one input.
use Prim.Native.Nat.{Ordering}
use ppx_universe.Base.{ℕ, ◌+◌, ◌-◌, ◌*◌, ◌^◌, ◌≤◌, ◌≡◌, refl, List, [], ◌∷◌, arith}
use ppx_universe.Bng.Digit.{
  base, bng_mult, bng_div_aux, sum_products, bng_add3, bng_sub3, bng_sub2, bng_low_half,
  bng_high_half, bng_add2_carry, bng_sub2_carry, adjust, div_high_half, div_low_half,
}
use ppx_universe.Bng.Digit.Divide.{IsDivided, bng_div_aux_lem}
use ppx_universe.Bng.Number.{IsNumber, value, IsTotal}
use ppx_universe.Bng.Add.{increment, decrement, bng_add_carry, bng_add, bng_sub_carry, bng_sub}
use ppx_universe.Bng.Compare.{bng_leading_zero_bits, bng_num_digits, bng_compare}
use ppx_universe.Bng.Shift.{bng_shift_left, bng_shift_right}
use ppx_universe.Bng.Mult.{
  sub_out, mult_sub_digit_loop, bng_mult_sub_digit, bng_mult_add, bng_square_add,
}
use ppx_universe.Bng.Mult.Product.{bng_mult_add_lem}
use ppx_universe.Bng.Mult.Square.{bng_square_add_lem}
use ppx_universe.Bng.DivRem.{
  bng_div_rem_digit, bng_div_rem, div_shifted, long_division, div_round, estimate_quo, correct_quo,
}
use ppx_universe.Bng.DivRem.ByDigit.{IsDigitDivision, bng_div_rem_digit_lem}
use ppx_universe.Bng.DivRem.Exact.{IsDivRem, bng_div_rem_lem}

abbrev full : ℕ
full = 2 ^ 64 - 1

-- A number of three digits and one of two.
abbrev long_number : List ℕ
long_number = 5 ∷ full ∷ 7 ∷ []

abbrev short_number : List ℕ
short_number = full ∷ 9 ∷ []

long_number-IsNumber : IsNumber long_number
long_number-IsNumber = omega arith

short_number-IsNumber : IsNumber short_number
short_number-IsNumber = omega arith

mult_full : bng_mult full full ≡ record { resh = full - 1; resl = 1 }
unfolding bng_mult sum_products bng_add3 bng_low_half bng_high_half
mult_full = refl

add_runs : bng_add (full ∷ full ∷ 3 ∷ []) (1 ∷ []) 0 ≡ record { digits = 0 ∷ 0 ∷ 4 ∷ []; carry = 0 }
unfolding bng_add bng_add_carry increment bng_add2_carry
add_runs = refl

sub_runs : bng_sub (0 ∷ 0 ∷ []) (1 ∷ []) 0 ≡ record { digits = full ∷ full ∷ []; carry = 1 }
unfolding bng_sub bng_sub_carry decrement bng_sub2_carry
sub_runs = refl

compare_runs : bng_compare (5 ∷ 0 ∷ 0 ∷ []) (4 ∷ 1 ∷ []) ≡ Ordering.lt
unfolding bng_compare
compare_runs = refl

num_digits_runs : bng_num_digits (5 ∷ 6 ∷ 0 ∷ []) ≡ 2
unfolding bng_num_digits
num_digits_runs = refl

-- (2 ^ 128 + 5) / (2 ^ 64 + 3), with the remainder 14 below the quotient 2 ^ 64 - 3.
div_rem_runs :
    bng_div_rem (5 ∷ 0 ∷ 1 ∷ 0 ∷ []) (3 ∷ 1 ∷ [])
    ≡ record { n = 14 ∷ 0 ∷ (full - 2) ∷ 0 ∷ []; d = 3 ∷ 1 ∷ [] }
unfolding bng_div_rem bng_leading_zero_bits bng_shift_left div_shifted long_division div_round
    estimate_quo bng_div_aux div_high_half div_low_half adjust bng_low_half bng_high_half
    correct_quo bng_compare bng_sub bng_sub_carry decrement bng_sub2_carry bng_mult_sub_digit
    mult_sub_digit_loop sub_out bng_mult sum_products bng_add3 bng_sub3 bng_sub2 bng_shift_right
div_rem_runs = refl

bng_div_aux_lem_example : IsDivided (2 * base + 7) 3 (bng_div_aux 2 7 3)
bng_div_aux_lem_example = bng_div_aux_lem 2 7 3 (omega arith) (omega arith) (omega arith)

no_bit_leaves : (bng_shift_left long_number 5).carry ≡ 0
unfolding bng_shift_left
no_bit_leaves = refl

bng_mult_add_lem_example :
    IsTotal
      (value long_number + value short_number * value (full ∷ []))
      3
      (bng_mult_add long_number short_number (full ∷ []))
    × ((bng_mult_add long_number short_number (full ∷ [])).carry ≤ 1)
bng_mult_add_lem_example =
    bng_mult_add_lem long_number short_number (full ∷ []) long_number-IsNumber short_number-IsNumber
      (omega arith) (omega arith)

bng_square_add_lem_example :
    IsTotal
      (2 * value (full ∷ long_number) + value short_number * value short_number)
      4
      (bng_square_add (full ∷ long_number) short_number)
    × ((bng_square_add (full ∷ long_number) short_number).carry ≤ 2)
bng_square_add_lem_example =
    bng_square_add_lem (full ∷ long_number) short_number (omega arith) short_number-IsNumber
      (omega arith)

bng_div_rem_digit_lem_example : IsDigitDivision long_number 10 (bng_div_rem_digit long_number 10)
bng_div_rem_digit_lem_example =
    bng_div_rem_digit_lem long_number 10 long_number-IsNumber (omega arith) (omega arith)
      (omega arith)

bng_div_rem_lem_example : IsDivRem long_number short_number (bng_div_rem long_number short_number)
bng_div_rem_lem_example =
    bng_div_rem_lem long_number short_number long_number-IsNumber short_number-IsNumber
      (omega arith) (omega arith) (omega arith)
