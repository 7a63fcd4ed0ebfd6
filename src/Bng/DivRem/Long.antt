-- ===== src/Bng/DivRem/Long.antt =====
-- The long division over all digits of the numerator.
use ppx_universe.Base.{ℕ, suc, ◌+◌, ◌*◌, ◌/◌, ◌<◌, ◌≡◌, List, [], ◌∷◌, length, arith, ap}
use native.Mathlib.Nat.{div-add-mod', mod-lt, div-lt_iff_lt-mul}
use ppx_universe.Bng.Digit.{base}
use ppx_universe.Bng.Number.{IsNumber, value, base_pow}
use ppx_universe.Bng.DivRem.{Division, div_round, long_division}
use ppx_universe.Bng.DivRem.Round.{div_round_lem}

-- `r` holds the quotient of `n` by the number `d` in `len` digits, and the remainder.
pub record IsDivision (n : ℕ) (d : List ℕ) (len : ℕ) (r : Division) : Type 0 where
  pub total : value r.quotient * value d + value r.remainder ≡ n
  pub below : value r.remainder < value d
  pub quotient : IsNumber r.quotient
  pub remainder : IsNumber r.remainder
  pub quotient_length : length r.quotient ≡ len
  pub remainder_length : length r.remainder ≡ length d

pub long_division_lem :
    (n top d : List ℕ)
    → IsNumber n
    → IsNumber top
    → IsNumber d
    → 0 < length d
    → length top ≡ length d
    → value top < value d
    → IsDivision (value n + base_pow (length n) * value top) d (length n) (long_division n top d)
unfolding long_division
long_division_lem [] top d hn ht hd pos len h = record {
  total = omega arith;
  below = h;
  quotient = tt;
  remainder = ht;
  quotient_length = omega arith;
  remainder_length = len;
}
long_division_lem (x ∷ n) top d (hx, hn) ht hd pos len h =
    let above = long_division_lem n top d hn ht hd pos len h in
    let u : List ℕ = x ∷ (long_division n top d).remainder in
    let round =
      div_round_lem u d (hx, above.remainder) hd pos (ap suc above.remainder_length)
        (omega (arith, above.below)) in
    let w = div_round u d in
    let small : value u / value d < base =
      (div-lt_iff_lt-mul {k = value d} {x = value u} {y = base} (omega arith)).1
        (omega (arith, above.below)) in
    let scale = ap (λ (t : ℕ). t * value d) round.quo in
    record {
      total = omega (arith, above.total, round.low, scale, div-add-mod' (value u) (value d));
      below = omega (arith, round.low, mod-lt (value u) {m = value d} (omega arith));
      quotient = (omega (arith, round.quo), above.quotient);
      remainder = round.digits;
      quotient_length = ap suc above.quotient_length;
      remainder_length = round.same_length;
    }
