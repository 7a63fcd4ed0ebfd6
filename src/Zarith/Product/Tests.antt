-- ===== src/Zarith/Product/Tests.antt =====
-- The digit arithmetic of num in the place of the products of GMP, and the theorem at one input.
use native.Mathlib.Nat.{mul-le-mul, mul-le-mul_left, lt_of_mul-lt-mul_left}
use ppx_universe.Base.{
  ℕ, zero, suc, ◌+◌, ◌-◌, ◌*◌, ◌^◌, ◌≤◌, ◌<◌, ◌≡◌, refl, ◌∙◌, List, [], ◌∷◌, true, false, length,
  arith,
}
use ppx_universe.Mlvalues.{long_val, val_long, tagged}
use ppx_universe.Bng.Digit.{base, IsDigit}
use ppx_universe.Bng.Number.{IsTotal, IsNumber, value, base_pow, value-lt-base_pow, base_pow-add}
use ppx_universe.Bng.Mult.{bng_mult_add_digit, bng_mult_add}
use ppx_universe.Bng.Mult.Digit.{bng_mult_add_digit_lem}
use ppx_universe.Bng.Mult.Product.{bng_mult_add_lem}
use ppx_universe.NatStubs.Access.{zeros}
use ppx_universe.NatStubs.Access.Moves.{zeros_lem}
use ppx_universe.Zarith.{Z, long, block}
use ppx_universe.Zarith.Values.{z_plus, z_minus, IsZ}
use ppx_universe.Zarith.Product.{MpnProducts, z_fits_hint, ml_z_mul}
use ppx_universe.Zarith.Product.Parts.{IsMpnProducts, IsProduct}
use ppx_universe.Zarith.Product.Exact.{ml_z_mul_lem}

abbrev product : List ℕ → List ℕ → List ℕ
product a b = (bng_mult_add (zeros (length a + length b)) a b).digits

abbrev digits : MpnProducts
digits = record {
  mul_1 = λ a x. bng_mult_add_digit (zeros (length a)) a x;
  mul = product;
  mul_n = product;
  sqr = λ a. product a a;
}

no_carry : (v w c n : ℕ) → v + w * c ≡ n → n < w → v ≡ n
no_carry v w zero n e h = omega arith
no_carry v w (suc c) n e h =
    let m : w * 1 ≤ w * suc c = mul-le-mul_left {m = 1} {n = suc c} w (omega arith) in
    absurd (omega arith)

below : (x y w v : ℕ) → x < w → y < v → x * y < w * v
below x y w v hx hy = omega (arith, mul-le-mul {n₁ = suc x} {m₁ = suc y} {n₂ = w} {m₂ = v} hx hy)

product_fits :
    (a b : List ℕ) → IsNumber a → IsNumber b → value a * value b < base_pow (length a + length b)
product_fits a b ha hb =
    let below_a = value-lt-base_pow a ha in
    let below_b = value-lt-base_pow b hb in
    rw (base_pow-add (length a) (length b))
      (below (value a) (value b) (base_pow (length a)) (base_pow (length b)) below_a below_b)

product_lem :
    (a b : List ℕ)
    → IsNumber a
    → IsNumber b
    → IsNumber (product a b) × (value (product a b) ≡ value a * value b)
product_lem a b ha hb =
    let n = length a + length b in
    let (v, number, len) = zeros_lem n in
    let (total, carry) = bng_mult_add_lem (zeros n) a b number ha hb (omega (arith, len)) in
    let fits : value a * value b < base_pow (length (zeros n)) = rw len (product_fits a b ha hb) in
    (
      total.digits,
      no_carry _ (base_pow (length (zeros n))) _ (value a * value b)
          (total.total ∙ omega (arith, v)) fits,
    )

mul_1_lem :
    (a : List ℕ) (x : ℕ)
    → IsNumber a
    → IsDigit x
    → IsTotal (value a * x) (length a) (digits.mul_1 a x) × IsDigit (digits.mul_1 a x).carry
mul_1_lem a x ha hx =
    let (v, number, len) = zeros_lem (length a) in
    let t = bng_mult_add_digit_lem (zeros (length a)) a x number ha hx (omega (arith, len)) in
    let r = digits.mul_1 a x in
    let sum : value r.digits + base_pow (length (zeros (length a))) * r.carry ≡ value a * x =
      omega (arith, t.total, v) in
    let total : value r.digits + base_pow (length a) * r.carry ≡ value a * x = rw len at sum in
    let bound = below (value a) x (base_pow (length a)) base (value-lt-base_pow a ha) hx in
    (
      record { total = total; digits = t.digits; same_length = t.same_length ∙ len },
      lt_of_mul-lt-mul_left (base_pow (length a)) {m = r.carry} {n = base} (omega (arith, total)),
    )

digits-IsMpnProducts : IsMpnProducts digits
digits-IsMpnProducts = record {
  mul_1 = λ a x ha hx pa. mul_1_lem a x ha hx;
  mul = λ a b ha hb pb h. product_lem a b ha hb;
  mul_n = λ a b ha hb pb h. product_lem a b ha hb;
  sqr = λ a ha pa. product_lem a a ha ha;
}

-- -(2 ^ 64 + 5) and -2 ^ 62
abbrev large : Z
large = block true (5 ∷ 1 ∷ [])

abbrev least : Z
least = long (2 ^ 62)

large-IsZ : IsZ large
large-IsZ = ((omega arith, (omega arith, tt)), omega arith, omega arith)

-- 2 ^ 29 fits the hint with the sign that makes its word small enough.
small_runs : ml_z_mul digits false (long (2 ^ 63 - 2 ^ 29)) (long (2 ^ 63 - 2 ^ 29)) ≡ long (2 ^ 58)
unfolding ml_z_mul z_fits_hint long_val val_long tagged
small_runs = refl

ml_z_mul_lem_example :
    IsProduct
      (z_plus large)
      (z_minus large)
      (z_plus least)
      (z_minus least)
      (ml_z_mul digits false large least)
ml_z_mul_lem_example =
    ml_z_mul_lem digits digits-IsMpnProducts false large least (λ e. absurd (cc e)) large-IsZ
      (omega arith)
