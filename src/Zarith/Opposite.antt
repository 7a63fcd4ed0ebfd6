-- ===== src/Zarith/Opposite.antt =====
-- Negation and absolute value.
use ppx_universe.Base.{
  ℕ, ◌+◌, ◌-◌, ◌%◌, ◌^◌, ◌<◌, ◌≡◌, inl, inr, refl, ap, ◌∙◌, Bool, true, false, not, ◌==◌, ltb,
  arith, Bool-cases,
}
use ppx_universe.Bng.Number.{value}
use ppx_universe.Zarith.{Z, long, block, z_arg, ml_z_neg, ml_z_abs}
use ppx_universe.Zarith.Values.{
  signed, z_plus, z_minus, IsZ, IsSigned, long-plus, long-minus, ml_z_reduce_lem, either,
}
use ppx_universe.Zarith.Limbs.{z_arg-IsLimbs}

-- The integer of the result is the opposite, or the absolute value.
abbrev pub IsOpposite : Z → Z → Type 0
IsOpposite z r = IsZ r × (z_plus r ≡ z_minus z) × (z_minus r ≡ z_plus z)

abbrev pub IsAbsolute : Z → Z → Type 0
IsAbsolute z r = IsZ r × (z_plus r ≡ z_plus z + z_minus z) × (z_minus r ≡ 0)

not-not : (b : Bool) → not (not b) ≡ b
not-not true = refl
not-not false = refl

IsSigned-IsOpposite :
    (z r : Z) → IsSigned (not (z_arg z).negative) (value (z_arg z).limbs) r → IsOpposite z r
unfolding z_plus z_minus z_arg
IsSigned-IsOpposite z r h =
    let b = (z_arg z).negative in
    (h.valid, h.plus ∙ ap (λ s. signed s (value (z_arg z).limbs)) (not-not b), h.minus)

signed-sum : (b : Bool) (m : ℕ) → m ≡ signed (not b) m + signed b m
signed-sum true m = omega arith
signed-sum false m = omega arith

IsSigned-IsAbsolute : (z r : Z) → IsSigned false (value (z_arg z).limbs) r → IsAbsolute z r
unfolding z_plus z_minus z_arg
IsSigned-IsAbsolute z r h =
    (h.valid, h.plus ∙ signed-sum (z_arg z).negative (value (z_arg z).limbs), h.minus)

-- ml_z_neg of a valid integer is the valid representation of the opposite integer, unboxed or a
-- block: the opposite of the least unboxed integer does not wrap around.
pub ml_z_neg_lem : (arg : Z) → IsZ arg → IsOpposite arg (ml_z_neg arg)
unfolding ml_z_neg
ml_z_neg_lem (long n) h = elim (Bool-cases (n == 2 ^ 62)) [
  | inl e ↦ rw e (
      IsSigned-IsOpposite (long n) _ (
        ml_z_reduce_lem (z_arg (long n)).limbs (not (z_arg (long n)).negative)
          (z_arg-IsLimbs (long n) h).0))
  | inr e ↦
      let bound : (2 ^ 63 - n) % 2 ^ 63 < 2 ^ 63 = omega arith in
      let p = long-plus n h in
      let m = long-minus n h in
      rw e (
        bound,
        long-plus ((2 ^ 63 - n) % 2 ^ 63) bound ∙ ground arith,
        long-minus ((2 ^ 63 - n) % 2 ^ 63) bound ∙ ground arith,
      )
]
ml_z_neg_lem (block sign limbs) h =
    IsSigned-IsOpposite (block sign limbs) _ (ml_z_reduce_lem limbs (not sign) h.0)

-- The absolute value is valid and exact, that of the least unboxed integer included.
pub ml_z_abs_lem : (arg : Z) → IsZ arg → IsAbsolute arg (ml_z_abs arg)
unfolding ml_z_abs
ml_z_abs_lem (long n) h =
    let p = long-plus n h in
    let m = long-minus n h in
    let bound : (2 ^ 63 - n) % 2 ^ 63 < 2 ^ 63 = omega arith in
    either (IsAbsolute (long n)) (ltb n (2 ^ 62)) (long n) _ (λ e. (h, ground arith, ground arith))
      (λ e.
        either (IsAbsolute (long n)) (n == 2 ^ 62) _ (long ((2 ^ 63 - n) % 2 ^ 63))
          (λ _.
            IsSigned-IsAbsolute (long n) _
              (ml_z_reduce_lem (z_arg (long n)).limbs false (z_arg-IsLimbs (long n) h).0))
          (λ e'. (
            bound,
            long-plus ((2 ^ 63 - n) % 2 ^ 63) bound ∙ ground arith,
            long-minus ((2 ^ 63 - n) % 2 ^ 63) bound ∙ ground arith,
          )))
ml_z_abs_lem (block sign limbs) h =
    IsSigned-IsAbsolute (block sign limbs) _ (ml_z_reduce_lem limbs false h.0)
