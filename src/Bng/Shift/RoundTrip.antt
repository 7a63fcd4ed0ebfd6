-- ===== src/Bng/Shift/RoundTrip.antt =====
-- A left shift that loses no bit is undone by the right shift.
use native.Mathlib.Nat.{mul-div_cancel}
use ppx_universe.Base.{ℕ, ◌*◌, ◌/◌, ◌^◌, ◌<◌, ◌≡◌, List, length, arith, ap, ◌∙◌}
use ppx_universe.Bits.{two_pow-pos}
use ppx_universe.Bng.Number.{IsNumber, value, base_pow, value_injective}
use ppx_universe.Bng.Shift.{bng_shift_left, bng_shift_right}
use ppx_universe.Bng.Shift.Exact.{bng_shift_left_lem, bng_shift_right_lem}

-- For a shift below 64 that loses no bit at the top, bng_shift_right after bng_shift_left gives
-- back the very digits of the number.
pub bng_shift_right-bng_shift_left :
    (a : List ℕ) (s : ℕ)
    → IsNumber a
    → s < 64
    → (bng_shift_left a s).carry ≡ 0
    → (bng_shift_right (bng_shift_left a s).digits s).digits ≡ a
bng_shift_right-bng_shift_left a s h hs lost =
    let (left, few) = bng_shift_left_lem a s h hs in
    let a' = (bng_shift_left a s).digits in
    let (quotient, rest, digits, len) = bng_shift_right_lem a' s left.digits hs in
    let doubled : value a' ≡ value a * 2 ^ s =
      omega (arith, left.total, ap (λ (t : ℕ). base_pow (length a) * t) lost) in
    let same : value (bng_shift_right a' s).digits ≡ value a =
      quotient ∙ ap (λ (t : ℕ). t / 2 ^ s) doubled ∙ mul-div_cancel (value a) (two_pow-pos s) in
    value_injective _ a digits h (len ∙ left.same_length) same
