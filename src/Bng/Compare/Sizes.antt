-- ===== src/Bng/Compare/Sizes.antt =====
-- bng_num_digits and the two loops of bng_compare that drop leading zeros count the digits of a
-- number.
use native.Mathlib.Nat.{mul-le-mul_left}
use ppx_universe.Base.{
  ℕ, zero, suc, ◌-◌, ◌*◌, ◌≤◌, ◌<◌, ◌≡◌, ◌⊎◌, List, ap, arith, length, get_or, take,
}
use ppx_universe.Bng.Number.{
  IsNumber, value, base_pow, value-take-suc, value-take_all, value-take-lt,
}
use ppx_universe.Bng.Compare.{num_digits_loop, bng_num_digits, strip_zeros}

-- `n` is the count of digits of the number `v`, at least `least`.
pub record IsDigitCount (least v n : ℕ) : Type 0 where
  pub above : v < base_pow n
  pub below : (n ≡ least) ⊎ (base_pow (n - 1) ≤ v)
  pub at_least : least ≤ n

-- A number whose top digit is not zero.
top_digit :
    (n : ℕ) (a : List ℕ)
    → (get_or a n 0 ≡ 0 → value (take (suc n) a) ≡ value (take n a))
      × (0 < get_or a n 0 → base_pow n ≤ value (take (suc n) a))
top_digit n a = (
  λ e. omega (arith, value-take-suc n a, ap (λ (t : ℕ). base_pow n * t) e),
  λ h. omega (arith, value-take-suc n a, mul-le-mul_left {m = 1} (base_pow n) h),
)

num_digits_loop_lem :
    (a : List ℕ) (n : ℕ) → IsNumber a → IsDigitCount 1 (value (take n a)) (num_digits_loop a n)
unfolding num_digits_loop
num_digits_loop_lem a zero h = ground arith
num_digits_loop_lem a (suc n) h =
    ground (arith, top_digit n a, value-take-lt (suc n) a h, num_digits_loop_lem a n h)

pub strip_zeros_lem :
    (a : List ℕ) (n : ℕ)
    → IsNumber a
    → IsDigitCount 0 (value (take n a)) (strip_zeros a n)
      × (value (take (strip_zeros a n) a) ≡ value (take n a))
unfolding strip_zeros
strip_zeros_lem a zero h = ground arith
strip_zeros_lem a (suc n) h =
    ground (arith, top_digit n a, value-take-lt (suc n) a h, strip_zeros_lem a n h)

-- bng_num_digits is at least 1 and is the least count of digits, not below 1, that holds the value
-- of the number.
pub bng_num_digits_lem : (a : List ℕ) → IsNumber a → IsDigitCount 1 (value a) (bng_num_digits a)
unfolding bng_num_digits
bng_num_digits_lem a h = rw (value-take_all a) at (num_digits_loop_lem a (length a) h)
