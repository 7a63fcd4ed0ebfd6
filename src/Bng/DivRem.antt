-- ===== src/Bng/DivRem.antt =====
-- The divisions of num/src/bng.c. A loop that runs down from the highest digit is a recursion that
-- treats the digits above first.
pub mod ByDigit
pub mod Round
pub mod Long
pub mod Exact
use Prim.Native.Nat.{Ordering}
use ppx_universe.Base.{
  ℕ, zero, suc, ◌+◌, ◌-◌, ◌*◌, ◌/◌, ◌%◌, ◌^◌, Bool, true, false, not, ◌||◌, List, [], ◌∷◌, ◌++◌,
  if◌then◌else◌, ◌==◌, length, take, drop, get_or,
}
use ppx_universe.Bng.Digit.{base, bng_div_aux}
use ppx_universe.Bng.Number.{Carried}
use ppx_universe.Bng.Add.{bng_sub}
use ppx_universe.Bng.Compare.{bng_leading_zero_bits, bng_compare}
use ppx_universe.Bng.Shift.{bng_shift_left, bng_shift_right}
use ppx_universe.Bng.Mult.{push, bng_mult_sub_digit}

-- The loop of bng_div_rem_norm_digit over the digits below `topdigit`: the quotient digits, and in
-- `carry` the last `topdigit`.
unfoldable pub div_digits : List ℕ → ℕ → ℕ → Carried
div_digits [] topdigit d = record { digits = []; carry = topdigit }
div_digits (x ∷ b) topdigit d =
    let above = div_digits b topdigit d in
    let step = bng_div_aux above.carry x d in
    record { digits = step.quo ∷ above.digits; carry = step.rem }

-- {a,len-1} and the remainder. `a` may lie one digit above `b`, as in bng_div_rem: each digit is
-- read before it is written over.
unfoldable pub bng_div_rem_norm_digit : List ℕ → ℕ → Carried
bng_div_rem_norm_digit b d = div_digits (take (length b - 1) b) (get_or b (length b - 1) 0) d

-- {a,len-1}, {b,len} as it is left, and the remainder.
pub record DigitDivision : Type 0 where
  pub quotient : List ℕ
  pub numerator : List ℕ
  pub rem : ℕ

unfoldable pub bng_div_rem_digit : List ℕ → ℕ → DigitDivision
bng_div_rem_digit b d =
    let shift = bng_leading_zero_bits d in
    let d' = d * 2 ^ shift % base in
    let b' = (bng_shift_left b shift).digits in
    let division = bng_div_rem_norm_digit b' d' in
    record {
      quotient = division.digits;
      numerator = (bng_shift_right b' shift).digits;
      rem = division.carry / 2 ^ shift;
    }

-- The window of bng_div_rem: {n + i, dlen}, n[j] and the quotient digit.
pub record Window : Type 0 where
  pub low : List ℕ
  pub top : ℕ
  pub quo : ℕ

-- `bng_compare(...) >= 0`
abbrev pub is_ge : Ordering → Bool
is_ge Ordering.lt = false
is_ge Ordering.eq = true
is_ge Ordering.gt = true

-- `while (n[j] != 0 || bng_compare(n + i, dlen, d, dlen) >= 0)`, with fuel.
unfoldable pub correct_quo : ℕ → List ℕ → Window → Window
correct_quo zero d w = w
correct_quo (suc fuel) d w = elim (not (w.top == 0) || is_ge (bng_compare w.low d)) [
  | true ↦
      let less = bng_sub w.low d 0 in
      correct_quo fuel d (record {
        low = less.digits;
        top = (w.top + base - less.carry) % base;
        quo = (w.quo + 1) % base;
      })
  | false ↦ w
]

-- The under-estimate of the quotient digit from n[j], n[j - 1] and the top digit of `d`.
unfoldable pub estimate_quo : ℕ → ℕ → ℕ → ℕ
estimate_quo nj below topden =
    if (topden + 1) % base == 0 then nj else (bng_div_aux nj below (topden + 1)).quo

-- One round of the long division on the digits n[i] to n[j]; `base` rounds of the inner loop are
-- more than it can take (Round).
unfoldable pub div_round : List ℕ → List ℕ → Window
div_round u d =
    let dlen = length d in
    let nj = get_or u dlen 0 in
    let quo = estimate_quo nj (get_or u (dlen - 1) 0) (get_or d (dlen - 1) 0) in
    let less = bng_mult_sub_digit (take dlen u) d quo in
    correct_quo base d
      (record { low = less.digits; top = (nj + base - less.carry) % base; quo = quo })

-- `for (j = nlen - 1; j >= dlen; j--)` over the digits below the top `dlen` ones: the remainder in
-- {n,dlen} and the quotient in the digits above it.
pub record Division : Type 0 where
  pub remainder : List ℕ
  pub quotient : List ℕ

unfoldable pub long_division : List ℕ → List ℕ → List ℕ → Division
long_division [] top d = record { remainder = top; quotient = [] }
long_division (x ∷ n) top d =
    let above = long_division n top d in
    let w = div_round (x ∷ above.remainder) d in
    record { remainder = w.low; quotient = w.quo ∷ above.quotient }

-- The division between the shifts, on a divisor of one digit or of more.
unfoldable pub div_shifted : List ℕ → List ℕ → Division
div_shifted n d =
    if length d == 1
    then (let division = bng_div_rem_norm_digit n (get_or d 0 0) in
        record { remainder = division.carry ∷ []; quotient = division.digits })
    else long_division (take (length n - length d) n) (drop (length n - length d) n) d

-- {n,nlen} and {d,dlen} as they are left.
pub record Divided : Type 0 where
  pub n : List ℕ
  pub d : List ℕ

unfoldable pub bng_div_rem : List ℕ → List ℕ → Divided
bng_div_rem n d =
    let shift = bng_leading_zero_bits (get_or d (length d - 1) 0) in
    let n' = (bng_shift_left n shift).digits in
    let d' = (bng_shift_left d shift).digits in
    let division = div_shifted n' d' in
    record {
      n = (bng_shift_right division.remainder shift).digits ++ division.quotient;
      d = (bng_shift_right d' shift).digits;
    }
