-- ===== src/Bng/Digit/Product.antt =====
-- BngMult of num/src/bng_digit.c: four products of half digits give the exact double digit.
use native.Mathlib.Nat.{mul-le-mul}
use ppx_universe.Base.{ℕ, ◌+◌, ◌-◌, ◌*◌, ◌/◌, ◌%◌, ◌≤◌, ◌<◌, ◌≡◌, arith}
use ppx_universe.Bits.{bit_and_mask}
use ppx_universe.Bng.Digit.{base, half_base, IsDigit, DoubleDigit}
use ppx_universe.Bng.Digit.{bng_low_half, bng_high_half, sum_products, shl_half, bng_mult}
use ppx_universe.Bng.Digit.Carry.{bng_add3_lem}

pub low_half_lem : (d : ℕ) → bng_low_half d ≡ d % half_base
unfolding bng_low_half
low_half_lem d = bit_and_mask 32 d

pub high_half_lem : (d : ℕ) → bng_high_half d ≡ d / half_base
unfolding bng_high_half
high_half_lem d = omega arith

-- The product of two half digits.
half_product : (x y : ℕ) → x < half_base → y < half_base → x * y ≤ (half_base - 1) * (half_base - 1)
half_product x y hx hy =
    mul-le-mul {n₁ = x} {m₁ = y} {n₂ = half_base - 1} {m₂ = half_base - 1} (omega arith)
      (omega arith)

pub digit_product : (x y : ℕ) → IsDigit x → IsDigit y → x * y ≤ (base - 1) * (base - 1)
digit_product x y hx hy =
    mul-le-mul {n₁ = x} {m₁ = y} {n₂ = base - 1} {m₂ = base - 1} (omega arith) (omega arith)

pub record IsProduct (n : ℕ) (r : DoubleDigit) : Type 0 where
  pub total : r.resl + base * r.resh ≡ n
  pub low : IsDigit r.resl
  pub high : IsDigit r.resh

no_wrap : (p : ℕ) → p ≤ (half_base - 1) * (half_base - 1) → p % base ≡ p
no_wrap p h = omega arith

halves_product :
    (x y : ℕ)
    → let xl = x % half_base in
      let xh = x / half_base in
      let yl = y % half_base in
      let yh = y / half_base in
      x * y ≡ xl * yl + half_base * (xl * yh) + half_base * (xh * yl) + base * (xh * yh)
halves_product x y =
    expand (x % half_base) (x / half_base) (y % half_base) (y / half_base) x y (omega arith)
      (omega arith)
  where
    expand :
        (xl xh yl yh s t : ℕ)
        → s ≡ xl + half_base * xh
        → t ≡ yl + half_base * yh
        → s * t ≡ xl * yl + half_base * (xl * yh) + half_base * (xh * yl) + base * (xh * yh)
    expand xl xh yl yh s t e f = rw (e, f) (omega arith)

-- The sum of the four products, once none of them wraps.
mult_split :
    (p11 p12 p21 p22 : ℕ)
    → p11 ≤ (half_base - 1) * (half_base - 1)
    → p12 ≤ (half_base - 1) * (half_base - 1)
    → p21 ≤ (half_base - 1) * (half_base - 1)
    → p22 ≤ (half_base - 1) * (half_base - 1)
    → p11 + half_base * p12 + half_base * p21 + base * p22 < base * base
    → IsProduct
        (p11 + half_base * p12 + half_base * p21 + base * p22)
        (sum_products p11 p12 p21 p22)
unfolding sum_products
mult_split p11 p12 p21 p22 h11 h12 h21 h22 h = record {
  total = ground (
    arith,
    bng_add3_lem ((p22 + p12 / half_base) + p21 / half_base) p11 (shl_half p12) (shl_half p21),
  );
  low = ground arith;
  high = ground arith;
}

-- BngMult computes from four products of half digits the exact product of two digits, as a double
-- digit.
pub bng_mult_lem : (x y : ℕ) → IsDigit x → IsDigit y → IsProduct (x * y) (bng_mult x y)
unfolding bng_mult
bng_mult_lem x y hx hy =
    let xl : ℕ = x % half_base in
    let xh : ℕ = x / half_base in
    let yl : ℕ = y % half_base in
    let yh : ℕ = y / half_base in
    let ll = half_product xl yl (omega arith) (omega arith) in
    let lh = half_product xl yh (omega arith) (omega arith) in
    let hl = half_product xh yl (omega arith) (omega arith) in
    let hh = half_product xh yh (omega arith) (omega arith) in
    let whole = halves_product x y in
    let bound = digit_product x y hx hy in
    rw
      (
        whole,
        low_half_lem x,
        low_half_lem y,
        high_half_lem x,
        high_half_lem y,
        no_wrap _ ll,
        no_wrap _ lh,
        no_wrap _ hl,
        no_wrap _ hh,
      )
      (mult_split (xl * yl) (xl * yh) (xh * yl) (xh * yh) ll lh hl hh (omega arith))
