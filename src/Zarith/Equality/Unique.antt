-- ===== src/Zarith/Equality/Unique.antt =====
-- An integer has one sign and one list of limbs, whichever of its representations they come from.
use ppx_universe.Base.{
  ℕ, ◌+◌, ◌<◌, ◌≡◌, inl, inr, refl, ap, List, Bool, true, false, not, ltb, length, arith,
  Bool-cases,
}
use ppx_universe.Bng.Number.{value, value_injective}
use ppx_universe.Zarith.{Z, Arg, z_arg}
use ppx_universe.Zarith.Values.{signed, z_plus, z_minus, IsZ}
use ppx_universe.Zarith.Limbs.{IsLimbs, z_arg-IsLimbs}
use ppx_universe.Zarith.Compare.{longer-lt, z_arg-IsNegative}

-- The same integer.
abbrev pub IsSame : Z → Z → Type 0
IsSame a b = z_plus a + z_minus b ≡ z_plus b + z_minus a

limbs_unique : (a b : List ℕ) → IsLimbs a → IsLimbs b → value a ≡ value b → a ≡ b
limbs_unique a b la lb v = elim (Bool-cases (ltb (length a) (length b))) [
  | inl e ↦ absurd (omega (arith, longer-lt b a lb la (ground arith)))
  | inr e ↦ elim (Bool-cases (ltb (length b) (length a))) [
    | inl e' ↦ absurd (omega (arith, longer-lt a b la lb (ground arith)))
    | inr e' ↦ value_injective a b la.0 lb.0 (ground arith) v
  ]
]

abbrev arg : Bool → List ℕ → Arg
arg sign limbs = record { negative = sign; limbs = limbs }

arg_unique :
    (s t : Bool) (a b : List ℕ)
    → IsLimbs a
    → IsLimbs b
    → (s ≡ true → 0 < value a)
    → (t ≡ true → 0 < value b)
    → signed (not s) (value a) + signed t (value b) ≡ signed (not t) (value b) + signed s (value a)
    → arg s a ≡ arg t b
arg_unique true true a b la lb na nb e = ap (arg true) (limbs_unique a b la lb (omega arith))
arg_unique false false a b la lb na nb e = ap (arg false) (limbs_unique a b la lb (omega arith))
arg_unique true false a b la lb na nb e = absurd (omega (arith, na refl))
arg_unique false true a b la lb na nb e = absurd (omega (arith, nb refl))

pub z_arg_unique : (a b : Z) → IsZ a → IsZ b → IsSame a b → z_arg a ≡ z_arg b
unfolding z_plus z_minus
z_arg_unique a b ha hb e =
    arg_unique (z_arg a).negative (z_arg b).negative (z_arg a).limbs (z_arg b).limbs
      (z_arg-IsLimbs a ha) (z_arg-IsLimbs b hb) (z_arg-IsNegative a ha) (z_arg-IsNegative b hb) e

pub z_arg-IsSame : (a b : Z) → z_arg a ≡ z_arg b → IsSame a b
unfolding z_plus z_minus
z_arg-IsSame a b e = rw e refl
