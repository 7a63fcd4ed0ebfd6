-- ===== src/Bng/Shift/Exact.antt =====
-- Shifts multiply and divide by a power of two; no bit is lost between the digits and the carry.
use native.Mathlib.Nat.{
  div-add-mod, mod-lt, mul-le-mul_right, div-lt_iff_lt-mul, div-eq_of_lt-le, eq_of_mul-eq-mul_left,
}
use ppx_universe.Base.{
  ℕ, zero, suc, ◌+◌, ◌-◌, ◌*◌, ◌/◌, ◌%◌, ◌^◌, ◌≤◌, ◌<◌, ◌≡◌, refl, sym, ap, ◌∙◌, List, [], ◌∷◌,
  bit_or, length, arith, ltb, true,
}
use ppx_universe.Bits.{bit_or_fields, bit_or_fields', pow-add, two_pow-pos}
use ppx_universe.Bng.Digit.{base, IsDigit}
use ppx_universe.Bng.Number.{Carried, IsNumber, value, IsTotal}
use ppx_universe.Bng.Shift.{shift_left_loop, bng_shift_left, shift_right_loop, bng_shift_right}

pub powers : (s : ℕ) → s ≤ 64 → 2 ^ s * 2 ^ (64 - s) ≡ base
powers s h =
    let sum : s + (64 - s) ≡ 64 = omega arith in
    sym (pow-add 2 s (64 - s)) ∙ ap (λ (k : ℕ). 2 ^ k) sum

-- The two parts of a digit `d` that is multiplied by `p`, where p * q is the base.
record IsShiftedDigit (p q d : ℕ) : Type 0 where
  stays : d * p % base ≡ d % q * p
  leaves : d / q < p
  total : d * p ≡ d % q * p + base * (d / q)
  room : d % q * p + p ≤ base

shifted_digit : (p q d : ℕ) → p * q ≡ base → 0 < p → 0 < q → IsDigit d → IsShiftedDigit p q d
shifted_digit p q d whole hp hq hd =
    let split = div-add-mod d q in
    let total : d * p ≡ d % q * p + base * (d / q) =
      omega (arith, ap (λ (t : ℕ). t * p) split, ap (λ (t : ℕ). t * (d / q)) whole) in
    let room : d % q * p + p ≤ base =
      omega (arith, whole, mul-le-mul_right {m = suc (d % q)} {n = q} p (mod-lt d hq)) in
    record {
      stays = omega arith;
      leaves = (div-lt_iff_lt-mul {k = q} {x = d} {y = p} hq).1 (omega (arith, whole));
      total = total;
      room = room;
    }

left_digit : (s d : ℕ) → s ≤ 64 → IsDigit d → IsShiftedDigit (2 ^ s) (2 ^ (64 - s)) d
left_digit s d hs hd =
    shifted_digit (2 ^ s) (2 ^ (64 - s)) d (powers s hs) (two_pow-pos s) (two_pow-pos (64 - s)) hd

right_digit : (s d : ℕ) → s ≤ 64 → IsDigit d → IsShiftedDigit (2 ^ (64 - s)) (2 ^ s) d
right_digit s d hs hd =
    shifted_digit (2 ^ (64 - s)) (2 ^ s) d (omega (arith, powers s hs)) (two_pow-pos (64 - s))
      (two_pow-pos s) hd

shift_left_loop_lem :
    (s : ℕ) (a : List ℕ) (c : ℕ)
    → s ≤ 64
    → IsNumber a
    → c < 2 ^ s
    → IsTotal (value a * 2 ^ s + c) (length a) (shift_left_loop s a c)
      × ((shift_left_loop s a c).carry < 2 ^ s)
unfolding shift_left_loop
shift_left_loop_lem s [] c hs h hc = ground arith
shift_left_loop_lem s (d ∷ a) c hs (hd, h) hc =
    let digit = left_digit s d hs hd in
    let or : bit_or (d * 2 ^ s % base) c ≡ d % 2 ^ (64 - s) * 2 ^ s + c =
      rw digit.stays (bit_or_fields s (d % 2 ^ (64 - s)) c hc) in
    let rest = shift_left_loop_lem s a (d / 2 ^ (64 - s)) hs h digit.leaves in ground arith

-- For a shift below 64, bng_shift_left leaves in the digits and the carry exactly the number times
-- 2 ^ shift, and the carry, below 2 ^ shift, holds the bits shifted out.
pub bng_shift_left_lem :
    (a : List ℕ) (s : ℕ)
    → IsNumber a
    → s < 64
    → IsTotal (value a * 2 ^ s) (length a) (bng_shift_left a s)
      × ((bng_shift_left a s).carry < 2 ^ s)
unfolding bng_shift_left
bng_shift_left_lem a zero h hs = ground arith
bng_shift_left_lem a (suc s) h hs =
    ground (arith, shift_left_loop_lem (suc s) a 0 (omega arith) h (two_pow-pos (suc s)))

-- What a right shift by `s` leaves: the digits are those of a * 2 ^ (64 - s) but the lowest, which
-- is the carry and holds the `s` bits shifted out above zeros.
pub record IsShiftedRight (s : ℕ) (a : List ℕ) (r : Carried) : Type 0 where
  pub out : ℕ
  pub total : base * value r.digits + r.carry ≡ value a * 2 ^ (64 - s)
  pub carry : r.carry ≡ out * 2 ^ (64 - s)
  pub few : out < 2 ^ s
  pub digits : IsNumber r.digits
  pub same_length : length r.digits ≡ length a

shift_right_loop_lem :
    (s : ℕ) (a : List ℕ) → s ≤ 64 → IsNumber a → IsShiftedRight s a (shift_right_loop s a)
unfolding shift_right_loop
shift_right_loop_lem s [] hs h = record {
  out = 0;
  total = omega arith;
  carry = omega arith;
  few = two_pow-pos s;
  digits = tt;
  same_length = refl;
}
shift_right_loop_lem s (d ∷ a) hs (hd, h) =
    let digit = right_digit s d hs hd in
    let above = shift_right_loop_lem s a hs h in
    let top = shift_right_loop s a in
    let or : bit_or (d / 2 ^ s) top.carry ≡ top.carry + d / 2 ^ s =
      rw above.carry (bit_or_fields' (64 - s) above.out (d / 2 ^ s) digit.leaves) in
    let fits : top.carry + d / 2 ^ s < base = omega (
      arith,
      powers s hs,
      above.carry,
      digit.leaves,
      mul-le-mul_right {m = suc above.out} {n = 2 ^ s} (2 ^ (64 - s)) above.few,
    ) in
    record {
      out = d % 2 ^ s;
      total = rw or (omega (arith, digit.total, digit.stays, above.total));
      carry = digit.stays;
      few = mod-lt d (two_pow-pos s);
      digits = (rw or fits, above.digits);
      same_length = ap suc above.same_length;
    }

bng_shift_right_total :
    (a : List ℕ) (s : ℕ) → IsNumber a → s < 64 → IsShiftedRight s a (bng_shift_right a s)
unfolding bng_shift_right
bng_shift_right_total a zero h hs = record {
  out = 0;
  total = omega arith;
  carry = omega arith;
  few = omega arith;
  digits = h;
  same_length = refl;
}
bng_shift_right_total a (suc s) h hs =
    let test : ltb 0 (suc s) ≡ true = ground arith in
    rw test (shift_right_loop_lem (suc s) a (omega arith) h)

-- A number in the two parts that a division by `p` makes.
pub quotient_unique : (n p v r : ℕ) → n ≡ v * p + r → r < p → (v ≡ n / p) × (r ≡ n % p)
quotient_unique n p v r e h =
    let same : n / p ≡ v = div-eq_of_lt-le p (omega (arith, e)) (omega (arith, e)) in
    (sym same, omega (arith, div-add-mod n p, ap (λ (t : ℕ). p * t) same))

-- For a shift below 64, bng_shift_right leaves the number divided by 2 ^ shift, in as many digits,
-- and returns the remainder in the top bits of a digit.
pub bng_shift_right_lem :
    (a : List ℕ) (s : ℕ)
    → IsNumber a
    → s < 64
    → (value (bng_shift_right a s).digits ≡ value a / 2 ^ s)
      × ((bng_shift_right a s).carry ≡ value a % 2 ^ s * 2 ^ (64 - s))
      × IsNumber (bng_shift_right a s).digits
      × (length (bng_shift_right a s).digits ≡ length a)
bng_shift_right_lem a s h hs =
    let shifted = bng_shift_right_total a s h hs in
    let q = 2 ^ (64 - s) in
    let v = value (bng_shift_right a s).digits in
    let whole : q * value a ≡ q * (v * 2 ^ s + shifted.out) =
      omega (arith, shifted.total, shifted.carry, ap (λ (t : ℕ). t * v) (powers s (omega arith))) in
    let split = eq_of_mul-eq-mul_left q (two_pow-pos (64 - s)) (value a) _ whole in
    let parts = quotient_unique (value a) (2 ^ s) v shifted.out split shifted.few in
    (parts.0, shifted.carry ∙ ap (λ (t : ℕ). t * q) parts.1, shifted.digits, shifted.same_length)
