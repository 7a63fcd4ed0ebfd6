-- ===== src/Bng/DivRem/ByDigit.antt =====
-- Division by one digit: bng_div_rem_norm_digit and bng_div_rem_digit.
use native.Mathlib.Nat.{
  lt_of_mul-lt-mul_left, le_of_mul-le-mul_left, mul-div_cancel, div-lt_iff_lt-mul, mul-le-mul_right,
  mul-le-mul_left,
}
use ppx_universe.Base.{
  ℕ, suc, ◌+◌, ◌-◌, ◌*◌, ◌/◌, ◌%◌, ◌^◌, ◌≤◌, ◌<◌, ◌≡◌, refl, List, [], ◌∷◌, length, take, get_or,
  length-take, All-take, arith, ap, ◌∙◌,
}
use ppx_universe.Bng.Digit.{base, IsDigit}
use ppx_universe.Bng.Digit.Divide.{bng_div_aux_lem}
use ppx_universe.Bng.Number.{Carried, IsNumber, value, base_pow, value_top, value-take-lt}
use ppx_universe.Bng.DivRem.{div_digits, bng_div_rem_norm_digit, DigitDivision, bng_div_rem_digit}
use ppx_universe.Bits.{two_pow-pos}
use ppx_universe.Bng.Compare.{bng_leading_zero_bits}
use ppx_universe.Bng.Compare.Normalize.{bng_leading_zero_bits_lem}
use ppx_universe.Bng.Shift.{bng_shift_left}
use ppx_universe.Bng.Shift.Exact.{bng_shift_left_lem}
use ppx_universe.Bng.Shift.RoundTrip.{bng_shift_right-bng_shift_left}

-- `r` holds the quotient of `n` by the digit `d` in `len` digits, and the remainder.
pub record IsQuotient (n d len : ℕ) (r : Carried) : Type 0 where
  pub total : value r.digits * d + r.carry ≡ n
  pub below : r.carry < d
  pub digits : IsNumber r.digits
  pub same_length : length r.digits ≡ len

div_digits_lem :
    (b : List ℕ) (topdigit d : ℕ)
    → IsNumber b
    → IsDigit d
    → topdigit < d
    → IsQuotient (value b + base_pow (length b) * topdigit) d (length b) (div_digits b topdigit d)
unfolding div_digits
div_digits_lem [] topdigit d hb hd ht = ground arith
div_digits_lem (x ∷ b) topdigit d (hx, hb) hd ht =
    let above = div_digits_lem b topdigit d hb hd ht in
    let step = bng_div_aux_lem (div_digits b topdigit d).carry x d above.below hd hx in
    record {
      total = omega (arith, step.total, above.total);
      below = step.below;
      digits = (step.digit, above.digits);
      same_length = omega (arith, above.same_length);
    }

-- For a divisor digit above the top digit of a non-empty number, normalized or not,
-- bng_div_rem_norm_digit gives the exact quotient, one digit shorter than the number, and the
-- exact remainder, below the divisor.
pub bng_div_rem_norm_digit_lem :
    (b : List ℕ) (d : ℕ)
    → IsNumber b
    → IsDigit d
    → 0 < length b
    → get_or b (length b - 1) 0 < d
    → IsQuotient (value b) d (length b - 1) (bng_div_rem_norm_digit b d)
unfolding bng_div_rem_norm_digit
bng_div_rem_norm_digit_lem b d hb hd pos ht =
    let e = length b - 1 in
    let len : length (take e b) ≡ e = omega (arith, length-take {0} e b) in
    let split = value_top b (length b) e refl (omega arith) in
    let all = div_digits_lem (take e b) (get_or b e 0) d (All-take IsDigit e b hb) hd ht in
    let scale = ap (λ (n : ℕ). base_pow n * get_or b e 0) len in
    record {
      total = omega (arith, all.total, split, scale);
      below = all.below;
      digits = all.digits;
      same_length = all.same_length ∙ len;
    }

-- A quotient by a shifted divisor is the quotient, and its remainder is the shifted remainder.
pub unshift :
    (q d r n p : ℕ)
    → 0 < p
    → q * (d * p) + r ≡ n * p
    → r < d * p
    → (q * d + r / p ≡ n) × (r / p < d)
unshift q d r n p hp e h =
    let fits : q * d ≤ n = le_of_mul-le-mul_left {m = q * d} {n = n} {k = p} (omega arith) hp in
    let t = n - q * d in
    let whole : t + q * d ≡ n = omega arith in
    let rest : r ≡ t * p = omega (arith, ap (λ (x : ℕ). x * p) whole) in
    let back : r / p ≡ t = ap (λ (x : ℕ). x / p) rest ∙ mul-div_cancel t hp in
    (omega arith, (div-lt_iff_lt-mul {k = p} {x = r} {y = d} hp).1 h)

-- A left shift by less than the leading zeros of a divisor loses no bit of a number that is
-- below the divisor times `w`.
pub no_bit_lost :
    (n d p w total v c : ℕ)
    → 0 < p
    → v + total * c ≡ n * p
    → total ≡ base * w
    → n < d * w
    → d * p ≤ base
    → c ≡ 0
no_bit_lost n d p w total v c hp e ht h hd =
    let scaled : suc n * p ≤ d * w * p = mul-le-mul_right {m = suc n} {n = d * w} p h in
    let top : w * (d * p) ≤ w * base = mul-le-mul_left {m = d * p} {n = base} w hd in
    let less = lt_of_mul-lt-mul_left total {m = c} {n = 1} (omega arith) in omega arith

-- The top digit bounds a number.
pub below_top :
    (a : List ℕ) (d : ℕ)
    → IsNumber a
    → 0 < length a
    → get_or a (length a - 1) 0 < d
    → value a < d * base_pow (length a - 1)
below_top a d ha pos h =
    let e = length a - 1 in
    let top = get_or a e 0 in
    let split = value_top a (length a) e refl (omega arith) in
    omega (arith, value-take-lt e a ha, mul-le-mul_right {m = suc top} {n = d} (base_pow e) h)

-- A number below `d` times the weight of its top digit has a top digit below `d`.
pub top_below :
    (a : List ℕ) (d : ℕ)
    → 0 < length a
    → value a < d * base_pow (length a - 1)
    → get_or a (length a - 1) 0 < d
top_below a d pos h =
    let e = length a - 1 in
    let split = value_top a (length a) e refl (omega arith) in
    lt_of_mul-lt-mul_left (base_pow e) {m = get_or a e 0} {n = d} (omega (arith, split))

-- What bng_div_rem_digit leaves: the quotient and remainder, and its numerator as it was.
pub record IsDigitDivision (b : List ℕ) (d : ℕ) (r : DigitDivision) : Type 0 where
  pub total : value r.quotient * d + r.rem ≡ value b
  pub below : r.rem < d
  pub digits : IsNumber r.quotient
  pub same_length : length r.quotient ≡ length b - 1
  pub restored : r.numerator ≡ b

-- For a divisor digit above the top digit of a non-empty number, bng_div_rem_digit gives the exact
-- quotient, one digit shorter than the number, and the exact remainder, below the divisor, and its
-- shifts leave the number as it was.
pub bng_div_rem_digit_lem :
    (b : List ℕ) (d : ℕ)
    → IsNumber b
    → IsDigit d
    → 0 < length b
    → get_or b (length b - 1) 0 < d
    → IsDigitDivision b d (bng_div_rem_digit b d)
unfolding bng_div_rem_digit
bng_div_rem_digit_lem b d hb hd pos ht =
    let s = bng_leading_zero_bits d in
    let p = 2 ^ s in
    let (few, big, fits) = bng_leading_zero_bits_lem d (omega arith) hd in
    let e = length b - 1 in
    let w = base_pow e in
    let at : length b ≡ suc e = omega arith in
    let scale : base_pow (length b) ≡ base * w = ap base_pow at in
    let r = bng_shift_left b s in
    let (left, out) = bng_shift_left_lem b s hb few in
    let lost =
      no_bit_lost (value b) d p w (base_pow (length b)) (value r.digits) r.carry (two_pow-pos s)
        left.total scale (below_top b d hb pos ht) (omega arith) in
    let same : value r.digits ≡ value b * p =
      omega (arith, left.total, ap (λ (t : ℕ). base_pow (length b) * t) lost) in
    let d' : d * p % base ≡ d * p = omega arith in
    let bound : value r.digits < d * p * base_pow (length r.digits - 1) = rw left.same_length (
      omega (
        arith,
        same,
        two_pow-pos s,
        mul-le-mul_right {m = suc (value b)} {n = d * w} p (below_top b d hb pos ht),
      )) in
    let pos' : 0 < length r.digits = omega (arith, left.same_length) in
    let norm =
      bng_div_rem_norm_digit_lem r.digits (d * p) left.digits fits pos'
        (top_below r.digits (d * p) pos' bound) in
    let division = bng_div_rem_norm_digit r.digits (d * p) in
    let (total, below) =
      unshift (value division.digits) d division.carry (value b) p (two_pow-pos s)
        (norm.total ∙ same) norm.below in
    rw d' (record {
      total = total;
      below = below;
      digits = norm.digits;
      same_length = norm.same_length ∙ ap (λ (n : ℕ). n - 1) left.same_length;
      restored = bng_shift_right-bng_shift_left b s hb few lost;
    })
