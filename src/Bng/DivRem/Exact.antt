-- ===== src/Bng/DivRem/Exact.antt =====
-- bng_div_rem leaves the exact quotient and remainder in its numerator, and its divisor as it was.
use native.Mathlib.Nat.{lt_of_mul-lt-mul_left, mul-le-mul_left, mul-le-mul_right}
use ppx_universe.Base.{
  ℕ, suc, ◌+◌, ◌-◌, ◌*◌, ◌^◌, ◌≤◌, ◌<◌, ◌≡◌, List, [], ◌∷◌, length, take, drop, get_or, length-take,
  length-drop, length-append, take-append-drop, take-append_front, drop-append_front, All-take,
  All-drop, All-append, ◌==◌, false, refl, arith, ap, sym, ◌∙◌,
}
use ppx_universe.Bits.{two_pow-pos}
use ppx_universe.Bng.Digit.{base, IsDigit}
use ppx_universe.Bng.Number.{
  IsNumber, value, base_pow, value-append, value_top, get_or-IsDigit, base_pow-add, value-take-lt,
}
use ppx_universe.Bng.Compare.{bng_leading_zero_bits}
use ppx_universe.Bng.Compare.Normalize.{bng_leading_zero_bits_lem}
use ppx_universe.Bng.Shift.{bng_shift_left, bng_shift_right}
use ppx_universe.Bng.Shift.Exact.{powers, bng_shift_left_lem, bng_shift_right_lem}
use ppx_universe.Bng.Shift.RoundTrip.{bng_shift_right-bng_shift_left}
use ppx_universe.Bng.DivRem.{div_shifted, Divided, bng_div_rem}
use ppx_universe.Bng.DivRem.ByDigit.{
  bng_div_rem_norm_digit_lem, unshift, no_bit_lost, below_top, top_below,
}
use ppx_universe.Bng.DivRem.Long.{IsDivision, long_division_lem}

-- A number in the digits below `m` and those from `m` on.
value-take-drop :
    (m : ℕ) (a : List ℕ) → m ≤ length a → value a ≡ value (take m a) + base_pow m * value (drop m a)
value-take-drop m a h =
    let len : length (take m a) ≡ m = omega (arith, length-take {0} m a) in
    ap value (sym (take-append-drop m a))
    ∙ value-append (take m a) (drop m a)
    ∙ ap (λ (n : ℕ). value (take m a) + base_pow n * value (drop m a)) len

-- Between the shifts: a numerator whose top digits are below the divisor.
div_shifted_lem :
    (n d : List ℕ)
    → IsNumber n
    → IsNumber d
    → 0 < length d
    → length d < length n
    → value n < value d * base_pow (length n - length d)
    → IsDivision (value n) d (length n - length d) (div_shifted n d)
unfolding div_shifted
div_shifted_lem n [] hn hd pos len h = absurd (omega arith)
div_shifted_lem n (y ∷ []) hn (hy, hd) pos len h =
    let top = top_below n y (omega arith) (omega arith) in
    let norm = bng_div_rem_norm_digit_lem n y hn hy (omega arith) top in
    record {
      total = omega (arith, norm.total);
      below = omega (arith, norm.below);
      quotient = norm.digits;
      remainder = (omega (arith, norm.below), tt);
      quotient_length = norm.same_length;
      remainder_length = refl;
    }
div_shifted_lem n (y ∷ y' ∷ ys) hn hd pos len h =
    let d : List ℕ = y ∷ y' ∷ ys in
    let m = length n - length d in
    let split = value-take-drop m n (omega arith) in
    let low : length (take m n) ≡ m = omega (arith, length-take {0} m n) in
    let high : length (drop m n) ≡ length d = omega (arith, length-drop {0} m n) in
    let less =
      lt_of_mul-lt-mul_left (base_pow m) {m = value (drop m n)} {n = value d} (omega arith) in
    let long =
      long_division_lem (take m n) (drop m n) d (All-take IsDigit m n hn) (All-drop IsDigit m n hn)
        hd pos high less in
    let several : (length d == 1) ≡ false = ground arith in
    rw several (record {
      total = omega (arith, long.total, split, ap (λ (t : ℕ). base_pow t * value (drop m n)) low);
      below = long.below;
      quotient = long.quotient;
      remainder = long.remainder;
      quotient_length = long.quotient_length ∙ low;
      remainder_length = long.remainder_length;
    })

-- The shift that brings the top bit of the divisor to the top.
record IsShift (n d : List ℕ) (s : ℕ) : Type 0 where
  few : s < 64
  numerator : (bng_shift_left n s).carry ≡ 0
  divisor : (bng_shift_left d s).carry ≡ 0
  enters : value n < value d * base_pow (length n - length d)

-- No bit of the numerator or of the divisor is lost.
shift_lem :
    (n d : List ℕ)
    → IsNumber n
    → IsNumber d
    → 0 < length d
    → length d < length n
    → get_or n (length n - 1) 0 < get_or d (length d - 1) 0
    → IsShift n d (bng_leading_zero_bits (get_or d (length d - 1) 0))
shift_lem n d hn hd pos len h =
    let e = length d - 1 in
    let f = length n - 1 in
    let m = length n - length d in
    let top = get_or d e 0 in
    let s = bng_leading_zero_bits top in
    let p = 2 ^ s in
    let q = 2 ^ (64 - s) in
    let digit = get_or-IsDigit e d hd in
    let (few, big, fits) = bng_leading_zero_bits_lem top (omega arith) digit in
    let whole : p * q ≡ base = powers s (omega arith) in
    let less = lt_of_mul-lt-mul_left p {m = top} {n = q} (omega arith) in
    let fits' : (top + 1) * p ≤ base =
      omega (arith, mul-le-mul_left {m = suc top} {n = q} p less) in
    let (left, out) = bng_shift_left_lem n s hn few in
    let (left', out') = bng_shift_left_lem d s hd few in
    let n_top : length n ≡ suc f = omega arith in
    let d_top : length d ≡ suc e = omega arith in
    let sum : f ≡ e + m = omega arith in
    let weight : base_pow f ≡ base_pow e * base_pow m = ap base_pow sum ∙ base_pow-add e m in
    let split = value_top d (length d) e refl d_top in
    let below = below_top n top hn (omega arith) h in
    record {
      few = few;
      numerator =
          no_bit_lost (value n) top p (base_pow f) (base_pow (length n)) _ _ (two_pow-pos s)
            left.total (ap base_pow n_top) below (omega arith);
      divisor =
          no_bit_lost (value d) (top + 1) p (base_pow e) (base_pow (length d)) _ _ (two_pow-pos s)
            left'.total (ap base_pow d_top) (omega (arith, split, value-take-lt e d hd)) fits';
      enters = omega (
        arith,
        below,
        ap (λ (t : ℕ). top * t) weight,
        mul-le-mul_right {m = base_pow e * top} {n = value d} (base_pow m) (omega (arith, split)),
      );
    }

-- What bng_div_rem leaves.
pub record IsDivRem (n d : List ℕ) (r : Divided) : Type 0 where
  pub total : value (drop (length d) r.n) * value d + value (take (length d) r.n) ≡ value n
  pub below : value (take (length d) r.n) < value d
  pub digits : IsNumber r.n
  pub same_length : length r.n ≡ length n
  pub restored : r.d ≡ d

-- The quotient and the remainder once the shift is undone.
record IsUnshifted (n d : List ℕ) (remainder quotient : List ℕ) : Type 0 where
  total : value quotient * value d + value remainder ≡ value n
  below : value remainder < value d
  digits : IsNumber quotient
  remainder_digits : IsNumber remainder
  quotient_length : length quotient ≡ length n - length d
  remainder_length : length remainder ≡ length d

IsUnshifted-division :
    (n d : List ℕ) (s : ℕ)
    → IsNumber n
    → IsNumber d
    → 0 < length d
    → length d < length n
    → IsShift n d s
    → let r = div_shifted (bng_shift_left n s).digits (bng_shift_left d s).digits in
      IsUnshifted n d (bng_shift_right r.remainder s).digits r.quotient
IsUnshifted-division n d s hn hd pos len shift =
    let p = 2 ^ s in
    let m = length n - length d in
    let rn = bng_shift_left n s in
    let rd = bng_shift_left d s in
    let (left, out) = bng_shift_left_lem n s hn shift.few in
    let (left', out') = bng_shift_left_lem d s hd shift.few in
    let vn : value rn.digits ≡ value n * p =
      omega (arith, left.total, ap (λ (t : ℕ). base_pow (length n) * t) shift.numerator) in
    let vd : value rd.digits ≡ value d * p =
      omega (arith, left'.total, ap (λ (t : ℕ). base_pow (length d) * t) shift.divisor) in
    let enters : value rn.digits
        < value rd.digits * base_pow (length rn.digits - length rd.digits) =
      rw (left.same_length, left'.same_length, vn, vd)
        (omega (
          arith,
          two_pow-pos s,
          mul-le-mul_right {m = suc (value n)} {n = value d * base_pow m} p shift.enters,
        )) in
    let division =
      div_shifted_lem rn.digits rd.digits left.digits left'.digits
        (omega (arith, left'.same_length)) (omega (arith, left.same_length, left'.same_length))
        enters in
    let r = div_shifted rn.digits rd.digits in
    let scale = ap (λ (t : ℕ). value r.quotient * t) vd in
    let (total, below) =
      unshift (value r.quotient) (value d) (value r.remainder) (value n) p (two_pow-pos s)
        (omega (arith, division.total, vn, scale)) (omega (arith, division.below, vd)) in
    let (rem, carry, digits, same) =
      bng_shift_right_lem r.remainder s division.remainder shift.few in
    record {
      total = omega (arith, total, rem);
      below = omega (arith, below, rem);
      digits = division.quotient;
      remainder_digits = digits;
      quotient_length = rw (left.same_length, left'.same_length) at division.quotient_length;
      remainder_length = same ∙ division.remainder_length ∙ left'.same_length;
    }

-- For a divisor of at least one digit and a longer numerator whose top digit is below the
-- divisor's top digit, bng_div_rem leaves in the lower digits of the numerator the exact
-- remainder, below the divisor, and in the digits above it the exact quotient; the divisor is left
-- as it was, and every digit stays a digit.
pub bng_div_rem_lem :
    (n d : List ℕ)
    → IsNumber n
    → IsNumber d
    → 0 < length d
    → length d < length n
    → get_or n (length n - 1) 0 < get_or d (length d - 1) 0
    → IsDivRem n d (bng_div_rem n d)
unfolding bng_div_rem
bng_div_rem_lem n d hn hd pos len h =
    let s = bng_leading_zero_bits (get_or d (length d - 1) 0) in
    let shift = shift_lem n d hn hd pos len h in
    let parts = IsUnshifted-division n d s hn hd pos len shift in
    let r = div_shifted (bng_shift_left n s).digits (bng_shift_left d s).digits in
    let front = (bng_shift_right r.remainder s).digits in
    let low = take-append_front front r.quotient (length d) parts.remainder_length in
    let high = drop-append_front front r.quotient (length d) parts.remainder_length in
    record {
      total = rw (low, high) parts.total;
      below = rw low parts.below;
      digits = All-append IsDigit front r.quotient parts.remainder_digits parts.digits;
      same_length = omega (
        arith,
        length-append {0} front r.quotient,
        parts.remainder_length,
        parts.quotient_length,
      );
      restored = bng_shift_right-bng_shift_left d s hd shift.few shift.divisor;
    }
