-- ===== src/Bng/Digit/Divide.antt =====
-- bng_div_aux of num/src/bng_digit.c: the two estimated half quotients, each adjusted by its loop,
-- make the exact quotient and remainder.
use native.Mathlib.Nat.{
  div-add-mod', div-mul-le_self, mod-lt, div-lt_iff_lt-mul, le-div_iff_mul-le, mul-le-mul_left,
}
use ppx_universe.Base.{
  ℕ, zero, suc, ◌+◌, ◌-◌, ◌*◌, ◌/◌, ◌%◌, ◌≤◌, ◌<◌, ◌≡◌, ap, sym, ◌∙◌, arith, bit, ltb, bit_or,
}
use ppx_universe.Bits.{bit_or_fields, bit_or_fields'}
use ppx_universe.Bng.Digit.{base, half_base, IsDigit, shl_half, Adjust, adjust, QuoRem, bng_div_aux}
use ppx_universe.Bng.Digit.{div_high_half, div_low_half}
use ppx_universe.Bng.Digit.Product.{low_half_lem, high_half_lem}

-- With `k` divisors left above the remainder `r`, the loop takes `k` rounds and ends at `r`.
pub adjust_lem :
    (fuel k d r nh nl q : ℕ)
    → nl + base * nh ≡ k * d + r
    → r < d
    → IsDigit d
    → IsDigit nl
    → IsDigit nh
    → q + k < base
    → k < fuel
    → adjust fuel d (record { nh = nh; nl = nl; q = q }) ≡ record { nh = 0; nl = r; q = q + k }
unfolding adjust
adjust_lem zero k d r nh nl q e hr hd hl hh hq hf = elim hf [ ]
adjust_lem (suc fuel) zero d r nh nl q e hr hd hl hh hq hf = ground arith
adjust_lem (suc fuel) (suc k) d r nh nl q e hr hd hl hh hq hf = ground (
  arith,
  adjust_lem fuel k d r ((nh + base - bit (ltb nl d)) % base) ((nl + base - d) % base)
      ((q + 1) % base),
)

-- The loop ends at the quotient `k`, from an estimate `q` that is not above it.
adjust_to :
    (fuel k d r nh nl q : ℕ)
    → nl + base * nh + q * d ≡ k * d + r
    → q ≤ k
    → r < d
    → IsDigit d
    → IsDigit nl
    → IsDigit nh
    → k < base
    → k < fuel
    → adjust fuel d (record { nh = nh; nl = nl; q = q }) ≡ record { nh = 0; nl = r; q = k }
adjust_to fuel k d r nh nl q e hq hr hd hl hh hk hf =
    let same : q + (k - q) ≡ k = omega arith in
    let split : k * d ≡ q * d + (k - q) * d = omega (arith, ap (λ (t : ℕ). t * d) (sym same)) in
    adjust_lem fuel (k - q) d r nh nl q (omega arith) hr hd hl hh (omega arith) (omega arith)
    ∙ ap (λ (t : ℕ). record { nh = 0; nl = r; q = t }) same

-- The estimate n / (d / 2 ^ 32 + 1) fits half a digit, and the estimate times d is at most
-- n * 2 ^ 32.
pub record IsEstimate (n d q : ℕ) : Type 0 where
  pub fits : q < half_base
  pub high : q * (d / half_base) + q ≤ n
  pub low : q * (d % half_base) ≤ q * half_base
  pub all : q * d ≡ half_base * (q * (d / half_base)) + q * (d % half_base)

estimate_lem : (n d : ℕ) → n < d → IsDigit d → IsEstimate n d (n / (d / half_base + 1))
estimate_lem n d hn hd =
    let dh : ℕ = d / half_base in
    let q : ℕ = n / (dh + 1) in
    record {
      fits = (div-lt_iff_lt-mul {k = dh + 1} {x = n} {y = half_base} (omega arith)).1 (omega arith);
      high = omega (arith, div-mul-le_self n (dh + 1));
      low = mul-le-mul_left q (omega arith);
      all = omega (arith, ap (λ (t : ℕ). q * t) (div-add-mod' d half_base));
    }

-- The numerator of one half, less the estimate times d, as the code leaves it in nh:nl.
abbrev numerator_left : ℕ → ℕ → ℕ → ℕ → Adjust
numerator_left n s d q =
    let m = (n + base - q * (d / half_base) % base) % base in
    let pl = q * (d % half_base) % base in
    let w = shl_half m + s in
    record {
      nh = (m / half_base + base - bit (ltb w pl)) % base;
      nl = (w + base - pl) % base;
      q = q;
    }

numerator_left_lem :
    (n s d q : ℕ)
    → n < d
    → IsDigit d
    → s < half_base
    → IsEstimate n d q
    → let left = numerator_left n s d q in
      (left.nl + base * left.nh + q * d ≡ n * half_base + s) × IsDigit left.nl × IsDigit left.nh
numerator_left_lem n s d q hn hd hs est = (ground arith, ground arith, ground arith)

-- One half of the division: n * 2 ^ 32 + s over d.
half_division :
    (n s d : ℕ)
    → n < d
    → IsDigit d
    → s < half_base
    → let total = n * half_base + s in
      (adjust half_base d (numerator_left n s d (n / (d / half_base + 1)))
        ≡ record { nh = 0; nl = total % d; q = total / d })
      × (total / d < half_base)
half_division n s d hn hd hs =
    let total : ℕ = n * half_base + s in
    let q : ℕ = n / (d / half_base + 1) in
    let est = estimate_lem n d hn hd in
    let left = numerator_left_lem n s d q hn hd hs est in
    let below : total / d < half_base =
      (div-lt_iff_lt-mul {k = d} {x = total} {y = half_base} (omega arith)).1 (omega arith) in
    let above : q ≤ total / d =
      (le-div_iff_mul-le {k = d} {x = q} {y = total} (omega arith)).1 (omega arith) in
    (
      adjust_to half_base (total / d) d (total % d) (numerator_left n s d q).nh
          (numerator_left n s d q).nl q (omega (arith, left, div-add-mod' total d)) above
          (mod-lt total (omega arith)) hd left.1 left.2 (omega arith) below,
      below,
    )

shl_half_or : (m s : ℕ) → s < half_base → bit_or (shl_half m) s ≡ shl_half m + s
shl_half_or m s h = rw (shifted m) (bit_or_fields 32 (m % half_base) s h)
  where
    shifted : (m : ℕ) → shl_half m ≡ m % half_base * half_base
    shifted m = omega arith

shl_half_or' : (m s : ℕ) → s < half_base → bit_or s (shl_half m) ≡ shl_half m + s
shl_half_or' m s h = rw (shifted m) (bit_or_fields' 32 (m % half_base) s h)
  where
    shifted : (m : ℕ) → shl_half m ≡ m % half_base * half_base
    shifted m = omega arith

div_high_half_lem :
    (nh nl d : ℕ)
    → nh < d
    → IsDigit d
    → IsDigit nl
    → let total = nh * half_base + nl / half_base in
      div_high_half nh nl d ≡ record { nh = 0; nl = total % d; q = total / d }
unfolding div_high_half
div_high_half_lem nh nl d hn hd hl =
    let high : nl / half_base < half_base = omega arith in
    rw (low_half_lem d, high_half_lem d, shl_half_or' _ _ high)
      (half_division nh (nl / half_base) d hn hd high).0

div_low_half_lem :
    (nl nsaved d : ℕ)
    → nl < d
    → IsDigit d
    → nsaved < half_base
    → let total = nl * half_base + nsaved in
      div_low_half nl nsaved d ≡ record { nh = 0; nl = total % d; q = total / d }
unfolding div_low_half
div_low_half_lem nl nsaved d hn hd hs =
    rw (low_half_lem d, high_half_lem d, shl_half_or _ _ hs) (half_division nl nsaved d hn hd hs).0

shl_half_small : (m : ℕ) → m < half_base → shl_half m ≡ m * half_base
shl_half_small m h = omega arith

-- bng_div_aux divides a double digit exactly, for every divisor above the high digit.
pub record IsDivided (n d : ℕ) (r : QuoRem) : Type 0 where
  pub total : r.quo * d + r.rem ≡ n
  pub below : r.rem < d
  pub digit : IsDigit r.quo

-- For a divisor digit above the high digit, bng_div_aux divides a double digit exactly: quotient
-- times divisor plus remainder is the numerator, the remainder is below the divisor and the
-- quotient is one digit; the rounds given to both loops are enough.
pub bng_div_aux_lem :
    (nh nl d : ℕ)
    → nh < d
    → IsDigit d
    → IsDigit nl
    → IsDivided (nh * base + nl) d (bng_div_aux nh nl d)
unfolding bng_div_aux
bng_div_aux_lem nh nl d hn hd hl =
    let first : ℕ = nh * half_base + nl / half_base in
    let second : ℕ = first % d * half_base + nl % half_base in
    let left : first % d < d = mod-lt first (omega arith) in
    let low : nl % half_base < half_base = omega arith in
    let high_fits = (half_division nh (nl / half_base) d hn hd (omega arith)).1 in
    let low_fits = (half_division (first % d) (nl % half_base) d left hd low).1 in
    rw
      (
        low_half_lem nl,
        div_high_half_lem nh nl d hn hd hl,
        div_low_half_lem (first % d) (nl % half_base) d left hd low,
        shl_half_or (first / d) (second / d) low_fits,
      )
      (record {
        total =
            rw (shl_half_small (first / d) high_fits)
              (omega (arith, div-add-mod' first d, div-add-mod' second d));
        below = mod-lt second (omega arith);
        digit = omega arith;
      })
