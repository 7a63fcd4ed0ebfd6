-- ===== src/Bng/Digit/Carry.antt =====
-- The sums and differences of bng_digit.c return the true sum or difference, split into a digit
-- and carries.
use ppx_universe.Base.{ℕ, ◌+◌, ◌-◌, ◌*◌, ◌≤◌, ◌<◌, ◌≡◌, arith}
use ppx_universe.Bng.Digit.{base, IsDigit, DigitCarry}
use ppx_universe.Bng.Digit.{bng_add2, bng_add2_carry, bng_add3, bng_sub2, bng_sub2_carry, bng_sub3}

-- `r` is the digit and the carry of the number `n`.
pub record IsSplit (n : ℕ) (r : DigitCarry) : Type 0 where
  pub total : r.res + base * r.carry ≡ n
  pub digit : IsDigit r.res

-- `r` is the digit and the borrow of `x - y`.
pub record IsBorrowed (x y : ℕ) (r : DigitCarry) : Type 0 where
  pub total : r.res + y ≡ x + base * r.carry
  pub digit : IsDigit r.res

pub bng_add2_lem : (x y : ℕ) → IsDigit x → IsDigit y → IsSplit (x + y) (bng_add2 x y)
unfolding bng_add2
bng_add2_lem x y hx hy = ground arith

pub bng_add2_carry_lem :
    (x y c : ℕ) → IsDigit x → IsDigit y → c ≤ 1 → IsSplit (x + y + c) (bng_add2_carry x y c)
unfolding bng_add2_carry
bng_add2_carry_lem x y c hx hy hc = ground arith

pub bng_sub2_lem : (x y : ℕ) → IsDigit x → IsDigit y → IsBorrowed x y (bng_sub2 x y)
unfolding bng_sub2
bng_sub2_lem x y hx hy = ground arith

pub bng_sub2_carry_lem :
    (x y c : ℕ) → IsDigit x → IsDigit y → c ≤ 1 → IsBorrowed x (y + c) (bng_sub2_carry x y c)
unfolding bng_sub2_carry
bng_sub2_carry_lem x y c hx hy hc = ground arith

-- Where the accumulated carries fit a digit.
pub bng_add3_lem :
    (accu x y z : ℕ)
    → IsDigit x
    → IsDigit y
    → IsDigit z
    → x + y + z + base * accu < base * base
    → IsSplit (x + y + z + base * accu) (bng_add3 accu x y z)
unfolding bng_add3
bng_add3_lem accu x y z hx hy hz h = ground arith

pub bng_sub3_lem :
    (accu x y z : ℕ)
    → IsDigit x
    → IsDigit y
    → IsDigit z
    → y + z + base * accu ≤ base * (base - 1)
    → IsBorrowed x (y + z + base * accu) (bng_sub3 accu x y z)
unfolding bng_sub3
bng_sub3_lem accu x y z hx hy hz h = ground arith
