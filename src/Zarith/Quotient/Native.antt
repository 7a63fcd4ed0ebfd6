-- ===== src/Zarith/Quotient/Native.antt =====
-- The path over native integers of the divisions.
use native.Mathlib.Nat.{mod-lt, div-le_self, div-add-mod'}
use ppx_universe.Base.{
  ℕ, ◌*◌, ◌/◌, ◌%◌, ◌^◌, ◌<◌, ◌≡◌, refl, sym, ap, ◌∙◌, Bool, true, false, not, ◌==◌, arith,
}
use ppx_universe.Mlvalues.{long_val, val_long}
use ppx_universe.Bng.Number.{value}
use ppx_universe.Zarith.{Z, long, z_arg, is_negative, xor_sign, z_fits_int}
use ppx_universe.Zarith.Values.{signed, z_plus, z_minus, IsZ, IsSigned}
use ppx_universe.Zarith.Quotient.{magnitude, signed_div, signed_rem}
use ppx_universe.Zarith.Quotient.Words.{
  magnitude_arg, fits-IsSigned, small-fits, magnitude-pos, magnitude-zero,
}
use ppx_universe.Zarith.Quotient.Parts.{IsZero, IsParts}

-- An argument as the integer that it stands for.
pub z-IsSigned : (z : Z) → IsZ z → IsSigned (z_arg z).negative (value (z_arg z).limbs) z
unfolding z_plus z_minus
z-IsSigned z h = record { valid = h; plus = refl; minus = refl }

signed-zero : (s : Bool) (m : ℕ) → m ≡ 0 → signed s m ≡ 0
signed-zero true m h = h
signed-zero false m h = refl

pub no_value_lem : (z : Z) → value (z_arg z).limbs ≡ 0 → IsZero z
unfolding z_plus z_minus
no_value_lem z e = (
  signed-zero (not (z_arg z).negative) (value (z_arg z).limbs) e,
  signed-zero (z_arg z).negative (value (z_arg z).limbs) e,
)

-- The path over native integers: the words divide as their numbers.
module _ (a b : ℕ) (h1 : a < 2 ^ 63) (h2 : b < 2 ^ 63) (nonzero : (long_val b == 0) ≡ false) where
  abbrev x : ℕ
  x = magnitude (long_val a)

  abbrev y : ℕ
  y = magnitude (long_val b)

  pub words-IsParts : IsParts (z_arg (long a)) (z_arg (long b)) (x / y) (x % y)
  words-IsParts =
      let (ex, _) = magnitude_arg a h1 in
      let (ey, _) = magnitude_arg b h2 in
      record {
        total = omega (arith, ex, div-add-mod' x y, ap (λ n. x / y * n) ey);
        below = omega (arith, ey, mod-lt x (magnitude-pos b h2 nonzero));
      }

  pub quotient-IsSigned :
      z_fits_int (signed_div (long_val a) (long_val b)) ≡ true
      → IsSigned
          (xor_sign (z_arg (long a)).negative (z_arg (long b)).negative)
          (x / y)
          (long (val_long (signed_div (long_val a) (long_val b))))
  unfolding z_arg
  quotient-IsSigned fits =
      let (_, bound) = magnitude_arg a h1 in
      fits-IsSigned (xor_sign (is_negative (long_val a)) (is_negative (long_val b))) (x / y)
        (omega (arith, bound, div-le_self x y)) fits

  remainder-lt : x % y < 2 ^ 62
  remainder-lt =
      let (_, bound) = magnitude_arg b h2 in
      omega (arith, bound, mod-lt x (magnitude-pos b h2 nonzero))

  pub remainder-IsSigned :
      IsSigned
        (z_arg (long a)).negative
        (x % y)
        (long (val_long (signed_rem (long_val a) (long_val b))))
  unfolding z_arg
  remainder-IsSigned =
      fits-IsSigned (is_negative (long_val a)) (x % y) (omega (arith, remainder-lt))
        (small-fits (is_negative (long_val a)) (x % y) remainder-lt)

pub zero_word_lem : (b : ℕ) → b < 2 ^ 63 → (long_val b == 0) ≡ true → IsZero (long b)
zero_word_lem b h e = no_value_lem (long b) (sym (magnitude_arg b h).0 ∙ magnitude-zero b e)
