-- ===== src/Zarith/Quotient/Words.antt =====
-- Quotients of words on the path over native integers.
use ppx_universe.Base.{
  ℕ, ◌+◌, ◌-◌, ◌%◌, ◌^◌, ◌≤◌, ◌<◌, ◌≡◌, inl, inr, ◌∙◌, Bool, true, false, ◌==◌, leb, ltb, arith,
  Bool-cases,
}
use ppx_universe.Mlvalues.{long_val, val_long, long_val-lt}
use ppx_universe.Bng.Number.{value}
use ppx_universe.Zarith.{long, z_arg, negated, z_fits_int}
use ppx_universe.Zarith.Values.{IsSigned, long-plus, long-minus}
use ppx_universe.Zarith.Quotient.{word, magnitude}

-- What Z_ARG makes of an OCaml integer: the number of its word.
pub magnitude_arg :
    (n : ℕ)
    → n < 2 ^ 63
    → (magnitude (long_val n) ≡ value (z_arg (long n)).limbs) × (magnitude (long_val n) ≤ 2 ^ 62)
unfolding z_arg long_val
magnitude_arg n h = elim (Bool-cases (ltb n (2 ^ 62))) [
  | inl e ↦
      let a : leb (2 ^ 63) n ≡ false = ground arith in
      elim (Bool-cases (n == 0)) [
        | inl z ↦ rw (e, a, z) (ground arith, ground arith)
        | inr z ↦ rw (e, a, z) (omega arith, ground arith)
      ]
  | inr e ↦
      let a : leb (2 ^ 63) (n + 2 ^ 63) ≡ true = ground arith in
      let z : ((n + 2 ^ 63) == 0) ≡ false = ground arith in rw (e, a, z) (omega arith, ground arith)
]

-- A word that fits in an OCaml integer, the least one included.
pub fits-IsSigned :
    (s : Bool) (k : ℕ)
    → k ≤ 2 ^ 62
    → z_fits_int (word s k) ≡ true
    → IsSigned s k (long (val_long (word s k)))
unfolding val_long
fits-IsSigned true k h fits =
    let bound : negated k % 2 ^ 63 < 2 ^ 63 = omega arith in
    record {
      valid = bound;
      plus = long-plus (negated k % 2 ^ 63) bound ∙ ground arith;
      minus = long-minus (negated k % 2 ^ 63) bound ∙ ground arith;
    }
fits-IsSigned false k h fits =
    let small : k ≤ 2 ^ 62 - 1 = ground arith in
    let bound : k % 2 ^ 63 < 2 ^ 63 = omega arith in
    record {
      valid = bound;
      plus = long-plus (k % 2 ^ 63) bound ∙ ground arith;
      minus = long-minus (k % 2 ^ 63) bound ∙ ground arith;
    }

-- Numbers below the least OCaml integer fit with either sign.
pub small-fits : (s : Bool) (k : ℕ) → k < 2 ^ 62 → z_fits_int (word s k) ≡ true
small-fits true k h = ground arith
small-fits false k h = ground arith

pub magnitude-pos : (n : ℕ) → n < 2 ^ 63 → (long_val n == 0) ≡ false → 0 < magnitude (long_val n)
magnitude-pos n h e = let bound = long_val-lt n h in ground arith

pub magnitude-zero : (n : ℕ) → (long_val n == 0) ≡ true → magnitude (long_val n) ≡ 0
magnitude-zero n e = ground arith
