-- ===== src/Bng/Compare/Order.antt =====
-- bng_compare orders digit lists as the numbers that they stand for.
use Prim.Native.Nat.{compare}
use native.Mathlib.Nat.{mul-le-mul_left}
use ppx_universe.Base.{
  ℕ, zero, suc, ◌+◌, ◌-◌, ◌*◌, ◌≤◌, ◌<◌, ◌≡◌, refl, List, ap, arith, length, get_or, take,
}
use ppx_universe.Bng.Number.{
  IsNumber, value, base_pow, value-take-suc, value-take_all, value-take-lt, base_pow-le,
}
use ppx_universe.Bng.Compare.{strip_zeros, compare_loop, bng_compare}
use ppx_universe.Bng.Compare.Sizes.{IsDigitCount, strip_zeros_lem}

-- A step of one digit at a higher place.
pub times_lt : (w t t' : ℕ) → t < t' → w * t + w ≤ w * t'
times_lt w t t' h = omega (arith, mul-le-mul_left {m = suc t} {n = t'} w h)

-- Equal digits at one place.
pub times_eq : (w t t' : ℕ) → t ≡ t' → w * t ≡ w * t'
times_eq w t t' e = ap (λ (x : ℕ). w * x) e

compare_loop_lem :
    (a b : List ℕ) (n : ℕ)
    → IsNumber a
    → IsNumber b
    → compare_loop a b n ≡ compare (value (take n a)) (value (take n b))
unfolding compare_loop
compare_loop_lem a b zero ha hb = refl
compare_loop_lem a b (suc n) ha hb =
    let w = base_pow n in
    let x = get_or a n 0 in
    let y = get_or b n 0 in
    rw (value-take-suc n a, value-take-suc n b)
      (ground (
        arith,
        compare_loop_lem a b n ha hb,
        times_lt w x y,
        times_lt w y x,
        times_eq w x y,
        value-take-lt n a ha,
        value-take-lt n b hb,
      ))

-- A number of more digits is larger.
longer_gt : (m n x y : ℕ) → IsDigitCount 0 x m → y < base_pow n → n < m → y < x
longer_gt m n x y hx hy h = ground (arith, base_pow-le n (m - 1))

-- bng_compare of two numbers, of any lengths and with any leading zeros, is the order of their
-- values.
pub bng_compare_lem :
    (a b : List ℕ) → IsNumber a → IsNumber b → bng_compare a b ≡ compare (value a) (value b)
unfolding bng_compare
bng_compare_lem a b ha hb =
    let m = strip_zeros a (length a) in
    let n = strip_zeros b (length b) in
    let (ca, ea) = strip_zeros_lem a (length a) ha in
    let (cb, eb) = strip_zeros_lem b (length b) hb in
    ground (
      arith,
      value-take_all a,
      value-take_all b,
      compare_loop_lem a b m ha hb,
      longer_gt m n (value a) (value b),
      longer_gt n m (value b) (value a),
    )
