-- ===== src/Bng/DivRem/Round.antt =====
-- One digit of the long division: the estimate is never too large, and the inner loop ends at the
-- exact quotient digit and a remainder below the divisor.
use native.Mathlib.Nat.{
  mul-le-mul_left, lt_of_mul-lt-mul_left, div-lt_iff_lt-mul, le-div_iff_mul-le, div-add-mod',
  mod-lt,
}
use ppx_universe.Base.{
  ℕ, zero, suc, ◌+◌, ◌-◌, ◌*◌, ◌/◌, ◌%◌, ◌≤◌, ◌<◌, ◌≡◌, refl, List, length, take, get_or,
  length-take, All-take, arith, ap, sym, ◌∙◌, not, ◌==◌, ◌||◌, true, ◌/◌, Bool-cases, inl, inr,
}
use ppx_universe.Bng.Digit.{base, IsDigit, bng_div_aux}
use ppx_universe.Bng.Digit.Divide.{bng_div_aux_lem}
use ppx_universe.Bng.Number.{
  IsNumber, value, base_pow, value-lt-base_pow, value_top, value-take_top, value-take-lt,
  get_or-IsDigit,
}
use ppx_universe.Bng.Add.{bng_sub}
use ppx_universe.Bng.Add.Exact.{bng_sub_lem}
use ppx_universe.Bng.Compare.{bng_compare}
use ppx_universe.Bng.Compare.Order.{bng_compare_lem}
use ppx_universe.Bng.Mult.Digit.{bng_mult_sub_digit_lem}
use ppx_universe.Bng.Mult.{bng_mult_sub_digit}
use ppx_universe.Bng.DivRem.{is_ge, Window, correct_quo, estimate_quo, div_round}

-- The window holds the remainder `r` and the quotient digit `k`.
pub record IsRound (d : List ℕ) (k r : ℕ) (w : Window) : Type 0 where
  pub low : value w.low ≡ r
  pub quo : w.quo ≡ k
  pub digits : IsNumber w.low
  pub same_length : length w.low ≡ length d

split_product : (w x y : ℕ) → y ≤ x → w * x ≡ w * (x - y) + w * y
split_product w x y h =
    let sum : x ≡ x - y + y = omega arith in omega (arith, ap (λ (t : ℕ). w * t) sum)

correct_quo_lem :
    (fuel k : ℕ) (d : List ℕ) (r : ℕ) (low : List ℕ) (top quo : ℕ)
    → IsNumber d
    → IsNumber low
    → length low ≡ length d
    → IsDigit top
    → value low + base_pow (length d) * top ≡ k * value d + r
    → r < value d
    → quo + k < base
    → k < fuel
    → IsRound d (quo + k) r (correct_quo fuel d (record { low = low; top = top; quo = quo }))
unfolding correct_quo
correct_quo_lem zero k d r low top quo hd hl len ht e hr hq hf = elim hf [ ]
correct_quo_lem (suc fuel) zero d r low top quo hd hl len ht e hr hq hf =
    let below = value-lt-base_pow d hd in
    let less = lt_of_mul-lt-mul_left (base_pow (length d)) {m = top} {n = 1} (omega arith) in
    ground (arith, bng_compare_lem low d hl hd)
correct_quo_lem (suc fuel) (suc k) d r low top quo hd hl len ht e hr hq hf =
    let below = value-lt-base_pow d hd in
    let below' = value-lt-base_pow low hl in
    let less = bng_sub_lem low d 0 hl hd (omega arith) (omega arith) in
    let s = bng_sub low d 0 in
    let w = base_pow (length d) in
    let scale : base_pow (length low) * s.carry ≡ w * s.carry =
      ap (λ (n : ℕ). base_pow n * s.carry) len in
    let bound : value s.digits < w =
      rw (less.same_length ∙ len) at (value-lt-base_pow s.digits less.digits) in
    let taken : (not (top == 0) || is_ge (bng_compare low d)) ≡ true =
      ground (arith, bng_compare_lem low d hl hd) in
    let borrow = lt_of_mul-lt-mul_left w {m = s.carry} {n = top + 1} (omega (arith, less.total)) in
    let top' : (top + base - s.carry) % base ≡ top - s.carry = omega arith in
    let quo' : (quo + 1) % base ≡ quo + 1 = omega arith in
    let moved : w * top ≡ w * (top - s.carry) + w * s.carry =
      split_product w top s.carry (omega arith) in
    let rest =
      correct_quo_lem fuel k d r s.digits (top - s.carry) (quo + 1) hd less.digits
        (less.same_length ∙ len) (omega arith) (omega (arith, less.total)) hr (omega arith)
        (omega arith) in
    rw (taken, top', quo', correct_quo)
      (record {
        low = rest.low;
        quo = omega (arith, rest.quo);
        digits = rest.digits;
        same_length = rest.same_length;
      })

-- `w` is the weight of the digit below the top one, `vu` the numerator and `vd` the divisor.
estimate_quo_lem :
    (nj below topden w vu vd : ℕ)
    → IsDigit nj
    → IsDigit below
    → IsDigit topden
    → vd ≤ w * (topden + 1)
    → w * (nj * base + below) ≤ vu
    → vu < base * vd
    → (estimate_quo nj below topden * vd ≤ vu) × IsDigit (estimate_quo nj below topden)
unfolding estimate_quo
estimate_quo_lem nj below topden w vu vd hj hb ht hd hu h =
    elim (Bool-cases ((topden + 1) % base == 0)) [
      | inl full ↦
          let top : topden + 1 ≡ base = ground arith in
          rw full (
            omega (
              arith,
              mul-le-mul_left {m = vd} {n = w * (topden + 1)} nj hd,
              ap (λ (t : ℕ). nj * (w * t)) top,
            ),
            hj,
          )
      | inr fits ↦
          let top : topden + 1 < base = ground arith in
          let less : nj < topden + 1 =
            lt_of_mul-lt-mul_left (w * base) {m = nj} {n = topden + 1} (omega arith) in
          let division = bng_div_aux_lem nj below (topden + 1) less top hb in
          let q = (bng_div_aux nj below (topden + 1)).quo in
          let part : q * (topden + 1) ≤ nj * base + below = omega (arith, division.total) in
          rw fits (
            omega (
              arith,
              mul-le-mul_left {m = vd} {n = w * (topden + 1)} q hd,
              mul-le-mul_left w part,
            ),
            division.digit,
          )
    ]

-- From an estimate that is not too large, `quo` times the divisor is subtracted and the rest is
-- corrected.
subtract_estimate :
    (d low : List ℕ) (nj quo : ℕ)
    → IsNumber d
    → IsNumber low
    → length low ≡ length d
    → IsDigit nj
    → IsDigit quo
    → quo * value d ≤ value low + base_pow (length d) * nj
    → value low + base_pow (length d) * nj < base * value d
    → let vu = value low + base_pow (length d) * nj in
      let less = bng_mult_sub_digit low d quo in
      IsRound d (vu / value d) (vu % value d) (
        correct_quo base d
          (record { low = less.digits; top = (nj + base - less.carry) % base; quo = quo }))
subtract_estimate d low nj quo hd hl len hj hq under over =
    let vd = value d in
    let w = base_pow (length d) in
    let vu = value low + w * nj in
    let s = bng_mult_sub_digit low d quo in
    let less = bng_mult_sub_digit_lem low d quo hl hd hq (omega arith) in
    let scale : base_pow (length low) * s.carry ≡ w * s.carry =
      ap (λ (n : ℕ). base_pow n * s.carry) len in
    let bound : value s.digits < w =
      rw (less.same_length ∙ len) at (value-lt-base_pow s.digits less.digits) in
    let borrow = lt_of_mul-lt-mul_left w {m = s.carry} {n = nj + 1} (omega (arith, less.total)) in
    let top' : (nj + base - s.carry) % base ≡ nj - s.carry = omega arith in
    let moved : w * nj ≡ w * (nj - s.carry) + w * s.carry =
      split_product w nj s.carry (omega arith) in
    let k = vu / vd in
    let below : k < base = (div-lt_iff_lt-mul {k = vd} {x = vu} {y = base} (omega arith)).1 over in
    let above : quo ≤ k = (le-div_iff_mul-le {k = vd} {x = quo} {y = vu} (omega arith)).1 under in
    let sum : quo + (k - quo) ≡ k = omega arith in
    let split : k * vd ≡ quo * vd + (k - quo) * vd =
      omega (arith, ap (λ (t : ℕ). t * vd) (sym sum)) in
    let round =
      correct_quo_lem base (k - quo) d (vu % vd) s.digits (nj - s.carry) quo hd less.digits
        (less.same_length ∙ len) (omega arith) (omega (arith, less.total, div-add-mod' vu vd))
        (mod-lt vu (omega arith)) (omega arith) (omega arith) in
    rw top' (record {
      low = round.low;
      quo = round.quo ∙ sum;
      digits = round.digits;
      same_length = round.same_length;
    })

-- One round divides its window by `d`.
pub div_round_lem :
    (u d : List ℕ)
    → IsNumber u
    → IsNumber d
    → 0 < length d
    → length u ≡ suc (length d)
    → value u < base * value d
    → IsRound d (value u / value d) (value u % value d) (div_round u d)
unfolding div_round
div_round_lem u d hu hd pos len h =
    let e = length d - 1 in
    let at : length d ≡ suc e = omega arith in
    let nj = get_or u (length d) 0 in
    let below = get_or u e 0 in
    let topden = get_or d e 0 in
    let low = take (length d) u in
    let w = base_pow e in
    let split : value u ≡ value low + base_pow (length d) * nj =
      value_top u (suc (length d)) (length d) len refl in
    let split_low : value low ≡ value (take e u) + w * below = value-take_top u (length d) e at in
    let split_d : value d ≡ value (take e d) + w * topden = value_top d (length d) e refl at in
    let scale : base_pow (length d) * nj ≡ base * (w * nj) =
      omega (arith, ap (λ (n : ℕ). base_pow n * nj) at) in
    let quo = estimate_quo nj below topden in
    let same : length low ≡ length d = omega (arith, length-take {0} (length d) u) in
    let (under, digit) =
      estimate_quo_lem nj below topden w (value u) (value d) (get_or-IsDigit (length d) u hu)
        (get_or-IsDigit e u hu) (get_or-IsDigit e d hd)
        (omega (arith, split_d, value-take-lt e d hd)) (omega (arith, split, split_low, scale)) h in
    rw split (
      subtract_estimate d low nj quo hd (All-take IsDigit (length d) u hu) same
        (get_or-IsDigit (length d) u hu) digit (rw split at under) (rw split at h))
