-- ===== src/Bng/Mult/Digit.antt =====
-- bng_mult_add_digit and bng_mult_sub_digit are exact.
use ppx_universe.Base.{ℕ, ◌+◌, ◌*◌, ◌≤◌, List, [], ◌∷◌, length, arith}
use ppx_universe.Bng.Digit.{IsDigit, bng_mult, bng_add2, bng_add3, bng_sub2, bng_sub3}
use ppx_universe.Bng.Digit.Carry.{bng_add2_lem, bng_add3_lem, bng_sub2_lem, bng_sub3_lem}
use ppx_universe.Bng.Digit.Product.{bng_mult_lem, digit_product}
use ppx_universe.Bng.Number.{IsNumber, value, IsTotal, IsDifference}
use ppx_universe.Bng.Add.Exact.{bng_add_carry_lem, bng_sub_carry_lem}
use ppx_universe.Bng.Mult.{
  add_out, mult_add_digit_loop, bng_mult_add_digit, sub_out, mult_sub_digit_loop,
  bng_mult_sub_digit,
}

add_out_lem :
    (a : List ℕ) (out : ℕ)
    → IsNumber a
    → IsDigit out
    → IsTotal (value a + out) (length a) (add_out a out)
unfolding add_out
add_out_lem [] out h ho = ground arith
add_out_lem (x ∷ xs) out (hx, h) ho =
    let sum = bng_add2_lem x out hx ho in
    ground (arith, bng_add_carry_lem xs (bng_add2 x out).carry h)

sub_out_lem :
    (a : List ℕ) (out : ℕ)
    → IsNumber a
    → IsDigit out
    → IsDifference (value a) out (length a) (sub_out a out)
unfolding sub_out
sub_out_lem [] out h ho = ground arith
sub_out_lem (x ∷ xs) out (hx, h) ho =
    let difference = bng_sub2_lem x out hx ho in
    ground (arith, bng_sub_carry_lem xs (bng_sub2 x out).carry h)

mult_add_digit_loop_lem :
    (a b : List ℕ) (d out : ℕ)
    → IsNumber a
    → IsNumber b
    → IsDigit d
    → IsDigit out
    → length b ≤ length a
    → IsTotal (value a + value b * d + out) (length a) (mult_add_digit_loop a b d out)
unfolding mult_add_digit_loop
mult_add_digit_loop_lem a [] d out ha hb hd ho hl = ground (arith, add_out_lem a out ha ho)
mult_add_digit_loop_lem [] (y ∷ ys) d out ha hb hd ho hl = absurd (omega arith)
mult_add_digit_loop_lem (x ∷ xs) (y ∷ ys) d out (hx, ha) (hy, hb) hd ho hl =
    let bound = digit_product y d hy hd in
    let product = bng_mult_lem y d hy hd in
    let p = bng_mult y d in
    let sum = bng_add3_lem p.resh x p.resl out hx product.low ho (omega (arith, product.total)) in
    let carry = (bng_add3 p.resh x p.resl out).carry in
    let rest =
      mult_add_digit_loop_lem xs ys d carry ha hb hd (omega (arith, product.total, sum.total))
        (omega arith) in
    record {
      total = omega (arith, product.total, sum.total, rest.total);
      digits = (sum.digit, rest.digits);
      same_length = omega (arith, rest.same_length);
    }

mult_sub_digit_loop_lem :
    (a b : List ℕ) (d out : ℕ)
    → IsNumber a
    → IsNumber b
    → IsDigit d
    → IsDigit out
    → length b ≤ length a
    → IsDifference (value a) (value b * d + out) (length a) (mult_sub_digit_loop a b d out)
unfolding mult_sub_digit_loop
mult_sub_digit_loop_lem a [] d out ha hb hd ho hl = ground (arith, sub_out_lem a out ha ho)
mult_sub_digit_loop_lem [] (y ∷ ys) d out ha hb hd ho hl = absurd (omega arith)
mult_sub_digit_loop_lem (x ∷ xs) (y ∷ ys) d out (hx, ha) (hy, hb) hd ho hl =
    let bound = digit_product y d hy hd in
    let product = bng_mult_lem y d hy hd in
    let p = bng_mult y d in
    let difference =
      bng_sub3_lem p.resh x p.resl out hx product.low ho (omega (arith, product.total)) in
    let carry = (bng_sub3 p.resh x p.resl out).carry in
    let rest =
      mult_sub_digit_loop_lem xs ys d carry ha hb hd
        (omega (arith, product.total, difference.total, difference.digit)) (omega arith) in
    record {
      total = omega (arith, product.total, difference.total, rest.total);
      digits = (difference.digit, rest.digits);
      same_length = omega (arith, rest.same_length);
    }

-- Where b has at most as many digits as a, bng_mult_add_digit leaves in a and its carry digit
-- exactly a + b * d, with as many digits as before.
pub bng_mult_add_digit_lem :
    (a b : List ℕ) (d : ℕ)
    → IsNumber a
    → IsNumber b
    → IsDigit d
    → length b ≤ length a
    → IsTotal (value a + value b * d) (length a) (bng_mult_add_digit a b d)
unfolding bng_mult_add_digit
bng_mult_add_digit_lem a b d ha hb hd hl =
    let all = mult_add_digit_loop_lem a b d 0 ha hb hd (omega arith) hl in ground arith

-- Where b has at most as many digits as a, bng_mult_sub_digit leaves in a exactly a - b * d, up to
-- the borrow that it returns, with as many digits as before.
pub bng_mult_sub_digit_lem :
    (a b : List ℕ) (d : ℕ)
    → IsNumber a
    → IsNumber b
    → IsDigit d
    → length b ≤ length a
    → IsDifference (value a) (value b * d) (length a) (bng_mult_sub_digit a b d)
unfolding bng_mult_sub_digit
bng_mult_sub_digit_lem a b d ha hb hd hl =
    let all = mult_sub_digit_loop_lem a b d 0 ha hb hd (omega arith) hl in ground arith
