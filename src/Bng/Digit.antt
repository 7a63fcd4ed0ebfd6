-- ===== src/Bng/Digit.antt =====
-- The generic digit macros of num/src/bng_digit.c, for 64-bit digits (BNG_BITS_PER_DIGIT of
-- num/src/bng.h is 64, BNG_BITS_PER_HALF_DIGIT is 32). A digit is a number below `base`; each sum,
-- difference, product and shift of digits keeps its wrap-around.
pub mod Carry
pub mod Product
pub mod Divide
use ppx_universe.Base.{
  ℕ, zero, suc, ◌+◌, ◌-◌, ◌*◌, ◌/◌, ◌%◌, ◌^◌, ◌<◌, bit_and, bit_or, Bool, true, false, ◌||◌, not,
  ltb, leb, ◌==◌, bit,
}

abbrev pub base : ℕ
base = 2 ^ 64

abbrev pub half_base : ℕ
half_base = 2 ^ 32

abbrev pub IsDigit : ℕ → Type 0
IsDigit d = d < base

-- `res` and `carryout` (or `carryaccu`) of a macro.
pub record DigitCarry : Type 0 where
  pub res : ℕ
  pub carry : ℕ

unfoldable pub bng_add2 : ℕ → ℕ → DigitCarry
bng_add2 arg1 arg2 =
    let tmp2 = (arg1 + arg2) % base in record { res = tmp2; carry = bit (ltb tmp2 arg1) }

unfoldable pub bng_add2_carry : ℕ → ℕ → ℕ → DigitCarry
bng_add2_carry arg1 arg2 carryin =
    let tmp2 = (arg1 + arg2) % base in
    let tmp3 = (tmp2 + carryin) % base in
    record { res = tmp3; carry = bit (ltb tmp2 arg1) + bit (ltb tmp3 tmp2) }

-- The first argument is the digit `carryaccu` that each carry increments.
unfoldable pub bng_add3 : ℕ → ℕ → ℕ → ℕ → DigitCarry
bng_add3 carryaccu arg1 arg2 arg3 =
    let tmp2 = (arg1 + arg2) % base in
    let accu = (carryaccu + bit (ltb tmp2 arg1)) % base in
    let tmp3 = (tmp2 + arg3) % base in
    record { res = tmp3; carry = (accu + bit (ltb tmp3 tmp2)) % base }

unfoldable pub bng_sub2 : ℕ → ℕ → DigitCarry
bng_sub2 arg1 arg2 = record { res = (arg1 + base - arg2) % base; carry = bit (ltb arg1 arg2) }

unfoldable pub bng_sub2_carry : ℕ → ℕ → ℕ → DigitCarry
bng_sub2_carry arg1 arg2 carryin =
    let tmp3 = (arg1 + base - arg2) % base in
    record {
      res = (tmp3 + base - carryin) % base;
      carry = bit (ltb arg1 arg2) + bit (ltb tmp3 carryin);
    }

unfoldable pub bng_sub3 : ℕ → ℕ → ℕ → ℕ → DigitCarry
bng_sub3 carryaccu arg1 arg2 arg3 =
    let tmp4 = (arg1 + base - arg2) % base in
    record {
      res = (tmp4 + base - arg3) % base;
      carry = (carryaccu + (bit (ltb arg1 arg2) + bit (ltb tmp4 arg3))) % base;
    }

unfoldable pub bng_low_half : ℕ → ℕ
bng_low_half d = bit_and d (half_base - 1)

unfoldable pub bng_high_half : ℕ → ℕ
bng_high_half d = d / half_base

-- `d << BNG_BITS_PER_HALF_DIGIT`
abbrev pub shl_half : ℕ → ℕ
shl_half d = d * half_base % base

pub record DoubleDigit : Type 0 where
  pub resh : ℕ
  pub resl : ℕ

-- The part of BngMult behind its four products.
unfoldable pub sum_products : ℕ → ℕ → ℕ → ℕ → DoubleDigit
unfolding bng_add3
sum_products p11 p12 p21 p22 =
    let resh = ((p22 + p12 / half_base) % base + p21 / half_base) % base in
    let low = bng_add3 resh p11 (shl_half p12) (shl_half p21) in
    record { resh = low.carry; resl = low.res }

unfoldable pub bng_mult : ℕ → ℕ → DoubleDigit
bng_mult arg1 arg2 =
    sum_products (bng_low_half arg1 * bng_low_half arg2 % base)
      (bng_low_half arg1 * bng_high_half arg2 % base)
      (bng_high_half arg1 * bng_low_half arg2 % base)
      (bng_high_half arg1 * bng_high_half arg2 % base)

-- The variables of the two loops of bng_div_aux: the numerator nh:nl and the quotient.
pub record Adjust : Type 0 where
  pub nh : ℕ
  pub nl : ℕ
  pub q : ℕ

-- `while (nh != 0 || nl >= d) { nh -= (nl < d); nl -= d; q++; }`, with fuel.
unfoldable pub adjust : ℕ → ℕ → Adjust → Adjust
adjust zero d s = s
adjust (suc fuel) d s = elim (not (s.nh == 0) || leb d s.nl) [
  | true ↦ adjust fuel d (record {
    nh = (s.nh + base - bit (ltb s.nl d)) % base;
    nl = (s.nl + base - d) % base;
    q = (s.q + 1) % base;
  })
  | false ↦ s
]

pub record QuoRem : Type 0 where
  pub quo : ℕ
  pub rem : ℕ

-- The top half of the quotient (`q`) and what is left of the numerator (`nl`). The loop gets
-- `half_base` rounds, more than it can take (Divide).
unfoldable pub div_high_half : ℕ → ℕ → ℕ → Adjust
div_high_half nh nl d =
    let dl = bng_low_half d in
    let dh = bng_high_half d in
    let qh = nh / (dh + 1) in
    let ph = qh * dh % base in
    let pl = qh * dl % base in
    let nh₁ = (nh + base - ph) % base in
    let nl₁ = bit_or (nl / half_base) (shl_half nh₁) in
    let nh₂ = nh₁ / half_base in
    adjust half_base d (record {
      nh = (nh₂ + base - bit (ltb nl₁ pl)) % base;
      nl = (nl₁ + base - pl) % base;
      q = qh;
    })

-- The bottom half, where `nl` is what the first half left.
unfoldable pub div_low_half : ℕ → ℕ → ℕ → Adjust
div_low_half nl nsaved d =
    let dl = bng_low_half d in
    let dh = bng_high_half d in
    let ql = nl / (dh + 1) in
    let ph = ql * dh % base in
    let pl = ql * dl % base in
    let nl₁ = (nl + base - ph) % base in
    let nh₁ = nl₁ / half_base in
    let nl₂ = bit_or (shl_half nl₁) nsaved in
    adjust half_base d (record {
      nh = (nh₁ + base - bit (ltb nl₂ pl)) % base;
      nl = (nl₂ + base - pl) % base;
      q = ql;
    })

unfoldable pub bng_div_aux : ℕ → ℕ → ℕ → QuoRem
bng_div_aux nh nl d =
    let nsaved = bng_low_half nl in
    let high = div_high_half nh nl d in
    let low = div_low_half high.nl nsaved d in
    record { quo = bit_or (shl_half high.q) low.q; rem = low.nl }
