-- ===== src/Bng/Shift.antt =====
-- bng_shift_left and bng_shift_right of num/src/bng.c. `shift` is below 64.
pub mod Exact
pub mod RoundTrip
use ppx_universe.Base.{
  ℕ, zero, suc, ◌-◌, ◌*◌, ◌/◌, ◌%◌, ◌^◌, List, [], ◌∷◌, bit_or, if◌then◌else◌, ltb,
}
use ppx_universe.Bng.Digit.{base}
use ppx_universe.Bng.Number.{Carried}

-- The loop of bng_shift_left, from the lowest digit up; the last argument is `carry`.
unfoldable pub shift_left_loop : ℕ → List ℕ → ℕ → Carried
shift_left_loop shift [] carry = record { digits = []; carry = carry }
shift_left_loop shift (d ∷ a) carry =
    let rest = shift_left_loop shift a (d / 2 ^ (64 - shift)) in
    record { digits = bit_or (d * 2 ^ shift % base) carry ∷ rest.digits; carry = rest.carry }

unfoldable pub bng_shift_left : List ℕ → ℕ → Carried
unfolding shift_left_loop
bng_shift_left a shift =
    if ltb 0 shift then shift_left_loop shift a 0 else record { digits = a; carry = 0 }

-- The loop of bng_shift_right runs from the highest digit down, so the digits above come first.
unfoldable pub shift_right_loop : ℕ → List ℕ → Carried
shift_right_loop shift [] = record { digits = []; carry = 0 }
shift_right_loop shift (d ∷ a) =
    let above = shift_right_loop shift a in
    record {
      digits = bit_or (d / 2 ^ shift) above.carry ∷ above.digits;
      carry = d * 2 ^ (64 - shift) % base;
    }

unfoldable pub bng_shift_right : List ℕ → ℕ → Carried
unfolding shift_right_loop
bng_shift_right a shift =
    if ltb 0 shift then shift_right_loop shift a else record { digits = a; carry = 0 }
