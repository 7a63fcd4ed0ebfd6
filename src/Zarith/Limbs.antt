-- ===== src/Zarith/Limbs.antt =====
-- What GMP documents of mpn_add, mpn_sub and mpn_cmp, and the limbs of an argument.
use ppx_universe.Base.{
  ℕ, ◌+◌, ◌-◌, ◌^◌, ◌≤◌, ◌<◌, ◌≡◌, ◌⊎◌, inl, inr, refl, List, true, false, ◌==◌, leb, ltb, length,
  arith, Bool-cases,
}
use ppx_universe.Mlvalues.{long_val}
use ppx_universe.Bng.Number.{IsTotal, IsNumber, value, base_pow}
use ppx_universe.Zarith.{Z, long, block, Order, less, same, greater, Mpn, z_arg}
use ppx_universe.Zarith.Values.{IsZ}

abbrev pub IsOrder : Order → ℕ → ℕ → Type 0
IsOrder less a b = a < b
IsOrder same a b = a ≡ b
IsOrder greater a b = b < a

-- The lengths and values that GMP asks for, and what it gives.
pub record IsMpn (mpn : Mpn) : Type 0 where
  pub add :
      (a b : List ℕ)
      → IsNumber a
      → IsNumber b
      → 0 < length b
      → length b ≤ length a
      → IsTotal (value a + value b) (length a) (mpn.add a b) × (mpn.add a b).carry ≤ 1
  pub sub :
      (a b : List ℕ)
      → IsNumber a
      → IsNumber b
      → 0 < length b
      → length b ≤ length a
      → value b ≤ value a
      → IsNumber (mpn.sub a b) × (value (mpn.sub a b) + value b ≡ value a)
  pub cmp :
      (a b : List ℕ)
      → IsNumber a
      → IsNumber b
      → 0 < length b
      → length a ≡ length b
      → IsOrder (mpn.cmp a b) (value a) (value b)

-- The limbs of an argument that is not 0, as GMP wants them.
abbrev pub IsNonzero : List ℕ → Type 0
IsNonzero limbs = IsNumber limbs × (0 < length limbs) × (base_pow (length limbs - 1) ≤ value limbs)

-- The limbs of an argument: the top one is not 0.
abbrev pub IsLimbs : List ℕ → Type 0
IsLimbs limbs = IsNumber limbs × ((length limbs ≡ 0) ⊎ (base_pow (length limbs - 1) ≤ value limbs))

pub z_arg-IsLimbs : (z : Z) → IsZ z → IsLimbs (z_arg z).limbs
unfolding z_arg long_val
z_arg-IsLimbs (long n) h = elim (Bool-cases (ltb n (2 ^ 62))) [
  | inl e ↦
      let a : leb (2 ^ 63) n ≡ false = ground arith in
      elim (Bool-cases (n == 0)) [
        | inl z ↦ rw (e, a, z) (tt, inl refl)
        | inr z ↦ rw (e, a, z) ((omega arith, tt), inr (ground arith))
      ]
  | inr e ↦
      let a : leb (2 ^ 63) (n + 2 ^ 63) ≡ true = ground arith in
      let z : ((n + 2 ^ 63) == 0) ≡ false = ground arith in
      rw (e, a, z) ((omega arith, tt), inr (ground arith))
]
z_arg-IsLimbs (block sign limbs) (number, top, big) = (number, inr top)

pub IsLimbs-IsNonzero :
    (limbs : List ℕ) → IsLimbs limbs → (length limbs == 0) ≡ false → IsNonzero limbs
IsLimbs-IsNonzero limbs (number, top) e =
    (number, ground arith, elim top [ inl z ↦ absurd (ground arith) | inr t ↦ t ])
