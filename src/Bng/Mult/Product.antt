-- ===== src/Bng/Mult/Product.antt =====
-- bng_mult_add adds the exact product of two numbers.
use native.Mathlib.Nat.{mul-le-mul, lt_of_mul-lt-mul_left}
use ppx_universe.Base.{
  ℕ, suc, ◌+◌, ◌*◌, ◌≤◌, ◌<◌, ◌≡◌, List, [], ◌∷◌, length, arith, List-cons, ap, sym,
}
use ppx_universe.Bng.Digit.{base}
use ppx_universe.Bng.Number.{
  Carried, IsNumber, value, base_pow, IsTotal, value-lt-base_pow, base_pow-add, carry-le,
  base_pow-le,
}
use ppx_universe.Bng.Mult.{to_carry, bng_mult_add_digit, mult_add_loop, bng_mult_add}
use ppx_universe.Bng.Mult.Digit.{bng_mult_add_digit_lem}

-- The weight of a carry, one digit up.
pub moved :
    {n m : ℕ} → suc n ≡ m → (r : Carried) → base_pow m * r.carry ≡ base * (base_pow n * r.carry)
moved {n} {m} e r = omega (arith, ap (λ (t : ℕ). base_pow t * r.carry) e)

-- While the whole fits below twice the range of `a`, the carries add up to 0 or 1.
mult_add_loop_lem :
    (a b c : List ℕ) (carry : ℕ)
    → IsNumber a
    → IsNumber b
    → IsNumber c
    → length b + length c ≤ length a
    → value a + value b * value c + base_pow (length a) * carry < 2 * base_pow (length a)
    → IsTotal
        (value a + value b * value c + base_pow (length a) * carry)
        (length a)
        (mult_add_loop a b c carry)
unfolding mult_add_loop
mult_add_loop_lem a b [] carry ha hb hc hl bound = ground arith
mult_add_loop_lem a b (z ∷ c) carry ha hb (hz, hc) hl bound =
    let row = bng_mult_add_digit_lem a b z ha hb hz (omega arith) in
    let r = bng_mult_add_digit a b z in
    let w = base_pow (length a) in
    let less =
      lt_of_mul-lt-mul_left w {m = carry + r.carry} {n = 2} (omega (arith, row.total, bound)) in
    let kept : to_carry (carry + r.carry) ≡ carry + r.carry = omega arith in
    let (x, xs, e) = List-cons r.digits (omega (arith, row.same_length)) in
    let digits : IsNumber (x ∷ xs) = rw e at row.digits in
    let len : suc (length xs) ≡ length a = rw e at row.same_length in
    let total : x + base * value xs + w * r.carry ≡ value a + value b * z = rw e at row.total in
    let scale : w ≡ base * base_pow (length xs) = ap base_pow (sym len) in
    let scaled = ap (λ (t : ℕ). t * (carry + r.carry)) scale in
    let rest =
      mult_add_loop_lem xs b c (carry + r.carry) digits.1 hb hc (omega (arith, len))
        (omega (arith, total, bound, scale, scaled)) in
    rw (e, kept, mult_add_loop)
      (record {
        total = omega (
          arith,
          rest.total,
          total,
          scale,
          scaled,
          moved len (mult_add_loop xs b c (carry + r.carry)),
        );
        digits = (digits.0, rest.digits);
        same_length = omega (arith, rest.same_length, len);
      })

-- A product of two numbers fits the sum of their lengths.
product_fits :
    (a b c : List ℕ)
    → IsNumber a
    → IsNumber b
    → IsNumber c
    → length b + length c ≤ length a
    → value a + value b * value c < 2 * base_pow (length a)
product_fits a b c ha hb hc hl =
    let below_b = value-lt-base_pow b hb in
    let below_c = value-lt-base_pow c hc in
    let product =
      mul-le-mul {n₁ = value b} {m₁ = value c} {n₂ = base_pow (length b)} {m₂ = base_pow (length c)}
        (omega arith) (omega arith) in
    let top : base_pow (length b) * base_pow (length c) ≤ base_pow (length a) =
      rw (base_pow-add (length b) (length c)) at
        (base_pow-le (length b + length c) (length a) hl) in
    omega (arith, value-lt-base_pow a ha)

-- Where a has at least as many digits as b and c together, bng_mult_add leaves in a and its carry
-- exactly a + b * c, with as many digits as before and a carry of at most 1, so that the unsigned
-- int carry never wraps.
pub bng_mult_add_lem :
    (a b c : List ℕ)
    → IsNumber a
    → IsNumber b
    → IsNumber c
    → length b + length c ≤ length a
    → IsTotal (value a + value b * value c) (length a) (bng_mult_add a b c)
      × ((bng_mult_add a b c).carry ≤ 1)
unfolding bng_mult_add
bng_mult_add_lem a b c ha hb hc hl =
    let fits = product_fits a b c ha hb hc hl in
    let all = mult_add_loop_lem a b c 0 ha hb hc hl (omega arith) in
    let exact : IsTotal (value a + value b * value c) (length a) (mult_add_loop a b c 0) = record {
      total = omega (arith, all.total);
      digits = all.digits;
      same_length = all.same_length;
    } in
    (exact, carry-le 1 _ (length a) exact fits)
