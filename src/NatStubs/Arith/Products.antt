-- ===== src/NatStubs/Arith/Products.antt =====
-- Products of regions.
use native.Mathlib.Nat.{mul-le-mul_right, mul-le-mul_left}
use ppx_universe.Base.{ℕ, suc, ◌+◌, ◌*◌, ◌≤◌, ◌<◌, arith}
use ppx_universe.Bng.Digit.{base, IsDigit}
use ppx_universe.Bng.Number.{value, base_pow, base_pow-le, carry-le}
use ppx_universe.Bng.Mult.Digit.{bng_mult_add_digit_lem}
use ppx_universe.Bng.Mult.Product.{bng_mult_add_lem}
use ppx_universe.Bng.Mult.Square.{bng_square_add_lem}
use ppx_universe.NatStubs.Heap.{Heap, IsHeap, digit_val, region, InBounds, Disjoint}
use ppx_universe.NatStubs.Heap.Updates.{length-region, region-IsNumber, digit_val-IsDigit}
use ppx_universe.NatStubs.Arith.{mult_digit_nat, mult_nat, square_nat}
use ppx_universe.NatStubs.Arith.Sums.{IsSum, return_carry_lem, region-lt-base_pow}

-- A number times a digit fits one digit more.
times_digit_lt : (v d m n : ℕ) → v < base_pow m → IsDigit d → m < n → v * d ≤ base_pow n
times_digit_lt v d m n hv hd h = omega (
  arith,
  mul-le-mul_right {m = v} {n = base_pow m} d (omega arith),
  mul-le-mul_left {m = d} {n = base} (base_pow m) (omega arith),
  base_pow-le (suc m) n h,
)

-- Where the first region is in bounds, disjoint from the second and longer, mult_digit_nat leaves in it
-- and in its result exactly the region plus the second times the digit, and changes nothing else.
pub mult_digit_nat_lem :
    (h : Heap) (nat1 ofs1 len1 nat2 ofs2 len2 nat3 ofs3 : ℕ)
    → IsHeap h
    → InBounds h nat1 ofs1 len1
    → InBounds h nat2 ofs2 len2
    → Disjoint nat1 ofs1 len1 nat2 ofs2 len2
    → len2 < len1
    → IsSum h nat1 ofs1 len1
        (value (region h nat1 ofs1 len1) + value (region h nat2 ofs2 len2) * digit_val h nat3 ofs3)
        (mult_digit_nat h nat1 ofs1 len1 nat2 ofs2 len2 nat3 ofs3)
unfolding mult_digit_nat
mult_digit_nat_lem h nat1 ofs1 len1 nat2 ofs2 len2 nat3 ofs3 hs in1 in2 apart hl =
    let a = region h nat1 ofs1 len1 in
    let b = region h nat2 ofs2 len2 in
    let d = digit_val h nat3 ofs3 in
    let hd = digit_val-IsDigit h nat3 ofs3 hs in
    let la = length-region h nat1 ofs1 len1 in1 in
    let lb = length-region h nat2 ofs2 len2 in2 in
    let t = rw la at (
      bng_mult_add_digit_lem a b d (region-IsNumber h nat1 ofs1 len1 hs)
        (region-IsNumber h nat2 ofs2 len2 hs) hd (omega (arith, la, lb))) in
    let bound = region-lt-base_pow h nat1 ofs1 len1 hs in1 in
    let product =
      times_digit_lt (value b) d len2 len1 (region-lt-base_pow h nat2 ofs2 len2 hs in2) hd hl in
    let small = carry-le 1 (value a + value b * d) len1 t (omega arith) in
    return_carry_lem h nat1 ofs1 len1 (value a + value b * d) hs in1 t (omega arith)

-- Where the first region is in bounds, disjoint from the two others and at least as long as both
-- together, mult_nat leaves in it and in its result exactly the region plus the product of the two
-- others, and changes no other digit of any nat.
pub mult_nat_lem :
    (h : Heap) (nat1 ofs1 len1 nat2 ofs2 len2 nat3 ofs3 len3 : ℕ)
    → IsHeap h
    → InBounds h nat1 ofs1 len1
    → InBounds h nat2 ofs2 len2
    → InBounds h nat3 ofs3 len3
    → Disjoint nat1 ofs1 len1 nat2 ofs2 len2
    → Disjoint nat1 ofs1 len1 nat3 ofs3 len3
    → len2 + len3 ≤ len1
    → IsSum h nat1 ofs1 len1
        (value (region h nat1 ofs1 len1)
          + value (region h nat2 ofs2 len2) * value (region h nat3 ofs3 len3))
        (mult_nat h nat1 ofs1 len1 nat2 ofs2 len2 nat3 ofs3 len3)
unfolding mult_nat
mult_nat_lem h nat1 ofs1 len1 nat2 ofs2 len2 nat3 ofs3 len3 hs in1 in2 in3 apart2 apart3 hl =
    let a = region h nat1 ofs1 len1 in
    let b = region h nat2 ofs2 len2 in
    let c = region h nat3 ofs3 len3 in
    let la = length-region h nat1 ofs1 len1 in1 in
    let lb = length-region h nat2 ofs2 len2 in2 in
    let lc = length-region h nat3 ofs3 len3 in3 in
    let (exact, small) =
      bng_mult_add_lem a b c (region-IsNumber h nat1 ofs1 len1 hs)
        (region-IsNumber h nat2 ofs2 len2 hs) (region-IsNumber h nat3 ofs3 len3 hs)
        (omega (arith, la, lb, lc)) in
    return_carry_lem h nat1 ofs1 len1 (value a + value b * value c) hs in1 (rw la at exact)
      (omega arith)

-- Where the first region is in bounds, disjoint from the second and at least twice as long,
-- square_nat leaves in it and in its result exactly twice the region plus the square of the
-- second, and changes no other digit of any nat.
pub square_nat_lem :
    (h : Heap) (nat1 ofs1 len1 nat2 ofs2 len2 : ℕ)
    → IsHeap h
    → InBounds h nat1 ofs1 len1
    → InBounds h nat2 ofs2 len2
    → Disjoint nat1 ofs1 len1 nat2 ofs2 len2
    → 2 * len2 ≤ len1
    → IsSum h nat1 ofs1 len1
        (2 * value (region h nat1 ofs1 len1)
          + value (region h nat2 ofs2 len2) * value (region h nat2 ofs2 len2))
        (square_nat h nat1 ofs1 len1 nat2 ofs2 len2)
unfolding square_nat
square_nat_lem h nat1 ofs1 len1 nat2 ofs2 len2 hs in1 in2 apart hl =
    let a = region h nat1 ofs1 len1 in
    let b = region h nat2 ofs2 len2 in
    let la = length-region h nat1 ofs1 len1 in1 in
    let lb = length-region h nat2 ofs2 len2 in2 in
    let (exact, small) =
      bng_square_add_lem a b (region-IsNumber h nat1 ofs1 len1 hs)
        (region-IsNumber h nat2 ofs2 len2 hs) (omega (arith, la, lb)) in
    return_carry_lem h nat1 ofs1 len1 (2 * value a + value b * value b) hs in1 (rw la at exact)
      (omega arith)
