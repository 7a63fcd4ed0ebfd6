-- ===== src/Bng/Mult/Square.antt =====
-- bng_square_add doubles a number and adds an exact square.
use native.Mathlib.Nat.{mul-le-mul, lt_of_mul-lt-mul_left}
use ppx_universe.Base.{
  ℕ, suc, ◌+◌, ◌*◌, ◌≤◌, ◌<◌, ◌≡◌, List, [], ◌∷◌, length, arith, List-cons, ap, sym, ◌∙◌, bit_or,
}
use ppx_universe.Bits.{bit_or_fields}
use ppx_universe.Bng.Digit.{base, bng_mult, bng_add2_carry}
use ppx_universe.Bng.Digit.Carry.{bng_add2_carry_lem}
use ppx_universe.Bng.Digit.Product.{bng_mult_lem}
use ppx_universe.Bng.Number.{
  IsNumber, value, base_pow, IsTotal, value-lt-base_pow, base_pow-add, base_pow-le,
}
use ppx_universe.Bng.Add.Exact.{bng_add_carry_lem}
use ppx_universe.Bng.Shift.{bng_shift_left}
use ppx_universe.Bng.Shift.Exact.{bng_shift_left_lem}
use ppx_universe.Bng.Mult.{
  to_carry, bng_mult_add_digit, cross_products, add_squares, bng_square_add,
}
use ppx_universe.Bng.Mult.Digit.{bng_mult_add_digit_lem}
use ppx_universe.Bng.Mult.Product.{moved}

-- The products of two different digits, each pair once, and the squares of the digits.
abbrev cross : List ℕ → ℕ
cross [] = 0
cross (y ∷ ys) = base * (value ys * y) + base * base * cross ys

abbrev squares : List ℕ → ℕ
squares [] = 0
squares (y ∷ ys) = y * y + base * base * squares ys

square_parts : (b : List ℕ) → value b * value b ≡ 2 * cross b + squares b
square_parts [] = omega arith
square_parts (y ∷ ys) = omega (arith, square_parts ys)

cross_products_lem :
    (a b : List ℕ) (carry : ℕ)
    → IsNumber a
    → IsNumber b
    → 2 * length b ≤ length a
    → value a + cross b + base_pow (length a) * carry < 2 * base_pow (length a)
    → IsTotal
        (value a + cross b + base_pow (length a) * carry)
        (length a)
        (cross_products a b carry)
unfolding cross_products
cross_products_lem a [] carry ha hb hl bound = ground arith
cross_products_lem a (y ∷ []) carry ha hb hl bound = ground arith
cross_products_lem [] (y ∷ y' ∷ ys) carry ha hb hl bound = absurd (omega arith)
cross_products_lem (x ∷ a) (y ∷ y' ∷ ys) carry (hx, ha) (hy, hb) hl bound =
    let b' : List ℕ = y' ∷ ys in
    let row = bng_mult_add_digit_lem a b' y ha hb hy (omega arith) in
    let r = bng_mult_add_digit a b' y in
    let w = base_pow (length a) in
    let less =
      lt_of_mul-lt-mul_left w {m = carry + r.carry} {n = 2} (omega (arith, row.total, bound)) in
    let kept : to_carry (carry + r.carry) ≡ carry + r.carry = omega arith in
    let (x', a', e) = List-cons r.digits (omega (arith, row.same_length)) in
    let digits : IsNumber (x' ∷ a') = rw e at row.digits in
    let len : suc (length a') ≡ length a = rw e at row.same_length in
    let total : x' + base * value a' + w * r.carry ≡ value a + value b' * y = rw e at row.total in
    let scale : w ≡ base * base_pow (length a') = ap base_pow (sym len) in
    let scaled = ap (λ (t : ℕ). t * (carry + r.carry)) scale in
    let rest =
      cross_products_lem a' (y' ∷ ys) (carry + r.carry) digits.1 hb (omega (arith, len))
        (omega (arith, total, bound, scale, scaled)) in
    rw (e, kept, cross_products)
      (record {
        total = omega (
          arith,
          rest.total,
          total,
          scale,
          scaled,
          moved len (cross_products a' b' (carry + r.carry)),
        );
        digits = (hx, (digits.0, rest.digits));
        same_length = omega (arith, rest.same_length, len);
      })

add_squares_lem :
    (a b : List ℕ) (c : ℕ)
    → IsNumber a
    → IsNumber b
    → 2 * length b ≤ length a
    → c ≤ 1
    → IsTotal (value a + squares b + c) (length a) (add_squares a b c)
unfolding add_squares
add_squares_lem a [] c ha hb hl hc = ground (arith, bng_add_carry_lem a c ha hc)
add_squares_lem [] (d ∷ b) c ha hb hl hc = absurd (omega arith)
add_squares_lem (x ∷ []) (d ∷ b) c ha hb hl hc = absurd (omega arith)
add_squares_lem (x ∷ x' ∷ a) (d ∷ b) c (hx, (hx', ha)) (hd, hb) hl hc =
    let p = bng_mult d d in
    let product = bng_mult_lem d d hd hd in
    let low = bng_add2_carry_lem x p.resl c hx product.low hc in
    let c' = (bng_add2_carry x p.resl c).carry in
    let high = bng_add2_carry_lem x' p.resh c' hx' product.high (omega (arith, low.total)) in
    let c'' = (bng_add2_carry x' p.resh c').carry in
    let rest = add_squares_lem a b c'' ha hb (omega arith) (omega (arith, high.total)) in
    record {
      total = omega (arith, product.total, low.total, high.total, rest.total);
      digits = (low.digit, (high.digit, rest.digits));
      same_length = omega (arith, rest.same_length);
    }

-- A square fits twice the length of its root.
square_fits :
    (a b : List ℕ) → IsNumber b → 2 * length b ≤ length a → value b * value b < base_pow (length a)
square_fits a b hb hl =
    let below = value-lt-base_pow b hb in
    let w = base_pow (length b) in
    let product =
      mul-le-mul {n₁ = suc (value b)} {m₁ = suc (value b)} {n₂ = w} {m₂ = w} below below in
    let top : w * w ≤ base_pow (length a) =
      rw (base_pow-add (length b) (length b)) at
        (base_pow-le (length b + length b) (length a) (omega arith)) in
    omega arith

-- Where a has at least twice as many digits as b, bng_square_add leaves in a and its carry exactly
-- 2 * a + b * b, with as many digits as before and a carry of at most 2.
pub bng_square_add_lem :
    (a b : List ℕ)
    → IsNumber a
    → IsNumber b
    → 2 * length b ≤ length a
    → IsTotal (2 * value a + value b * value b) (length a) (bng_square_add a b)
      × ((bng_square_add a b).carry ≤ 2)
unfolding bng_square_add
bng_square_add_lem a b ha hb hl =
    let w = base_pow (length a) in
    let below = value-lt-base_pow a ha in
    let fits = square_fits a b hb hl in
    let parts = square_parts b in
    let r = cross_products a b 0 in
    let crossed = cross_products_lem a b 0 ha hb hl (omega arith) in
    let r' = bng_shift_left r.digits 1 in
    let (doubled, few) = bng_shift_left_lem r.digits 1 crossed.digits (omega arith) in
    let s = add_squares r'.digits b 0 in
    let squared =
      add_squares_lem r'.digits b 0 doubled.digits hb
        (omega (arith, doubled.same_length, crossed.same_length)) (omega arith) in
    let w₁ = ap (λ (n : ℕ). base_pow n * r'.carry) crossed.same_length in
    let w₂ = ap (λ (n : ℕ). base_pow n * s.carry) (doubled.same_length ∙ crossed.same_length) in
    let whole : value s.digits + w * (r.carry * 2 + r'.carry + s.carry)
        ≡ 2 * value a + value b * value b =
      omega (arith, parts, crossed.total, doubled.total, squared.total, w₁, w₂) in
    let less =
      lt_of_mul-lt-mul_left w {m = r.carry * 2 + r'.carry + s.carry} {n = 3}
        (omega (arith, whole)) in
    let kept : to_carry (r.carry * 2) ≡ r.carry * 2 = omega arith in
    let or : bit_or (r.carry * 2) r'.carry ≡ r.carry * 2 + r'.carry =
      bit_or_fields 1 r.carry r'.carry few in
    let kept' : to_carry (r.carry * 2 + r'.carry) ≡ r.carry * 2 + r'.carry = omega arith in
    let kept'' : to_carry (r.carry * 2 + r'.carry + s.carry) ≡ r.carry * 2 + r'.carry + s.carry =
      omega arith in
    rw (kept, or, kept', kept'')
      (
        record {
          total = whole;
          digits = squared.digits;
          same_length = squared.same_length ∙ doubled.same_length ∙ crossed.same_length;
        },
        omega arith,
      )
