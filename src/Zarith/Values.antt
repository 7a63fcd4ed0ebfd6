-- ===== src/Zarith/Values.antt =====
-- The integer that a Z stands for, as the difference of two numbers of which one is 0, and what
-- ml_z_reduce makes.
use ppx_universe.Base.{
  ℕ, zero, suc, ◌+◌, ◌-◌, ◌*◌, ◌%◌, ◌^◌, ◌≤◌, ◌<◌, ◌≡◌, inl, inr, refl, sym, ◌∙◌, List, Bool, true,
  false, not, if◌then◌else◌, ◌==◌, leb, ltb, length, length-take, get_or, take, arith, Bool-cases,
  All-take,
}
use ppx_universe.Mlvalues.{long_val, val_long}
use ppx_universe.Bng.Digit.{IsDigit}
use ppx_universe.Bng.Number.{
  IsNumber, value, base_pow, value-take_all, value-take-suc, base_pow-pos,
}
use ppx_universe.Bng.Compare.{strip_zeros}
use ppx_universe.Bng.Compare.Sizes.{IsDigitCount, strip_zeros_lem}
use ppx_universe.Zarith.{
  Z, long, block, z_max_int, negated, Arg, z_arg, reduced_size, reduced, ml_z_reduce,
}

abbrev pub signed : Bool → ℕ → ℕ
signed true m = m
signed false m = 0

abbrev pub arg_plus : Arg → ℕ
arg_plus a = signed (not a.negative) (value a.limbs)

abbrev pub arg_minus : Arg → ℕ
arg_minus a = signed a.negative (value a.limbs)

-- The integer is z_plus less z_minus.
unfoldable pub z_plus : Z → ℕ
unfolding z_arg
z_plus z = arg_plus (z_arg z)

unfoldable pub z_minus : Z → ℕ
unfolding z_arg
z_minus z = arg_minus (z_arg z)

-- 63 bits; or limbs of which the top one is not 0, above the greatest OCaml integer.
abbrev pub IsZ : Z → Type 0
IsZ (long n) = n < 2 ^ 63
IsZ (block sign limbs) =
    IsNumber limbs × (base_pow (length limbs - 1) ≤ value limbs) × (z_max_int < value limbs)

-- A Z for the number m with the sign.
pub record IsSigned (sign : Bool) (m : ℕ) (z : Z) : Type 0 where
  pub valid : IsZ z
  pub plus : z_plus z ≡ signed (not sign) m
  pub minus : z_minus z ≡ signed sign m

reduced_size_lem : (r : List ℕ) (n : ℕ) → reduced_size r n ≡ strip_zeros r n
unfolding reduced_size strip_zeros
reduced_size_lem r zero = refl
reduced_size_lem r (suc n) = rw (reduced_size_lem r n)

-- An OCaml integer stands for n, or for n - 2 ^ 63 from 2 ^ 62 on.
pub long-plus : (n : ℕ) → n < 2 ^ 63 → z_plus (long n) ≡ (if ltb n (2 ^ 62) then n else 0)
unfolding z_plus z_arg long_val
long-plus n h = elim (Bool-cases (ltb n (2 ^ 62))) [
  | inl e ↦
      let a : leb (2 ^ 63) n ≡ false = ground arith in
      elim (Bool-cases (n == 0)) [
        | inl z ↦ let z' : 0 ≡ n = ground arith in rw (e, a, z) z'
        | inr z ↦ let s : n + 2 ^ 64 * 0 ≡ n = omega arith in rw (e, a, z) s
      ]
  | inr e ↦ let a : leb (2 ^ 63) (n + 2 ^ 63) ≡ true = ground arith in rw (e, a)
]

pub long-minus :
    (n : ℕ) → n < 2 ^ 63 → z_minus (long n) ≡ (if ltb n (2 ^ 62) then 0 else 2 ^ 63 - n)
unfolding z_minus z_arg long_val
long-minus n h = elim (Bool-cases (ltb n (2 ^ 62))) [
  | inl e ↦ let a : leb (2 ^ 63) n ≡ false = ground arith in rw (e, a)
  | inr e ↦
      let a : leb (2 ^ 63) (n + 2 ^ 63) ≡ true = ground arith in
      let z : ((n + 2 ^ 63) == 0) ≡ false = ground arith in
      let s : negated (n + 2 ^ 63) + 2 ^ 64 * 0 ≡ 2 ^ 63 - n = ground arith in rw (e, a, z) s
]

-- A native integer of at most 2 ^ 62 - 1 with a sign.
pub long-IsSigned :
    (sign : Bool) (m : ℕ)
    → m ≤ z_max_int
    → IsSigned sign m (long (val_long (if sign then negated m else m)))
unfolding val_long
long-IsSigned true m h =
    let bound : negated m % 2 ^ 63 < 2 ^ 63 = omega arith in
    record {
      valid = bound;
      plus = long-plus (negated m % 2 ^ 63) bound ∙ ground arith;
      minus = long-minus (negated m % 2 ^ 63) bound ∙ ground arith;
    }
long-IsSigned false m h =
    let bound : m % 2 ^ 63 < 2 ^ 63 = omega arith in
    record {
      valid = bound;
      plus = long-plus (m % 2 ^ 63) bound ∙ ground arith;
      minus = long-minus (m % 2 ^ 63) bound ∙ ground arith;
    }

block-IsSigned :
    (sign : Bool) (limbs : List ℕ)
    → IsZ (block sign limbs)
    → IsSigned sign (value limbs) (block sign limbs)
unfolding z_plus z_minus z_arg
block-IsSigned sign limbs h = record { valid = h; plus = refl; minus = refl }

pub zero-IsSigned : (sign : Bool) → IsSigned sign 0 (long 0)
unfolding z_plus z_minus z_arg long_val
zero-IsSigned true = record { valid = omega arith; plus = refl; minus = refl }
zero-IsSigned false = record { valid = omega arith; plus = refl; minus = refl }

take-IsZ :
    (sign : Bool) (r : List ℕ) (n : ℕ)
    → IsNumber r
    → suc n ≤ length r
    → base_pow n ≤ value (take (suc n) r)
    → z_max_int < value (take (suc n) r)
    → IsZ (block sign (take (suc n) r))
take-IsZ sign r n h fits top big =
    let len : length (take (suc n) r) - 1 ≡ n = omega (arith, length-take (suc n) r) in
    (All-take IsDigit (suc n) r h, rw len top, big)

reduced-IsSigned :
    (r : List ℕ) (sign : Bool) (n : ℕ)
    → IsNumber r
    → IsDigitCount 0 (value r) n
    → value (take n r) ≡ value r
    → n ≤ length r
    → IsSigned sign (value r) (reduced r sign n)
reduced-IsSigned r sign zero h count equal fits = rw (sym equal) (zero-IsSigned sign)
reduced-IsSigned r sign (suc zero) h count equal fits =
    let l : value r ≡ get_or r 0 0 = omega (arith, value-take-suc 0 r, equal) in
    elim (Bool-cases (leb (get_or r 0 0) z_max_int)) [
      | inl e ↦ rw (e, l) (long-IsSigned sign (get_or r 0 0) (ground arith))
      | inr e ↦
          rw (e, sym equal)
            (block-IsSigned sign (take 1 r)
              (take-IsZ sign r 0 h fits (ground (arith, l, equal)) (ground (arith, l, equal))))
    ]
reduced-IsSigned r sign (suc (suc n)) h count equal fits =
    let p : suc (suc n) - 1 ≡ suc n = omega arith in
    let top : base_pow (suc n) ≤ value r = elim count.below [
      | inl e ↦ absurd (omega arith)
      | inr e ↦ rw p at e
    ] in
    let big : z_max_int < value r = omega (arith, base_pow-pos n) in
    let z : (suc n == 0) ≡ false = ground arith in
    rw (z, sym equal)
      (block-IsSigned sign (take (suc (suc n)) r)
        (take-IsZ sign r (suc n) h fits (omega arith) (omega arith)))

reduced_size-le : (r : List ℕ) (n : ℕ) → reduced_size r n ≤ n
unfolding reduced_size
reduced_size-le r zero = omega arith
reduced_size-le r (suc n) = elim (Bool-cases (get_or r n 0 == 0)) [
  | inl e ↦ rw e (omega (arith, reduced_size-le r n))
  | inr e ↦ rw e (omega arith)
]

-- What ml_z_reduce makes of limbs, leading zeros included, is valid and keeps the number.
pub ml_z_reduce_lem :
    (r : List ℕ) (sign : Bool) → IsNumber r → IsSigned sign (value r) (ml_z_reduce r sign)
unfolding ml_z_reduce
ml_z_reduce_lem r sign h =
    let (count, kept) = strip_zeros_lem r (length r) h in
    let size = reduced_size_lem r (length r) in
    let all = value-take_all r in
    reduced-IsSigned r sign (reduced_size r (length r)) h (rw (size, sym all) count)
      (rw size (kept ∙ all)) (reduced_size-le r (length r))

-- A property of both branches of a test.
pub either :
    {A : Type 0} (P : A → Type 0) (b : Bool) (x y : A)
    → (b ≡ true → P x)
    → (b ≡ false → P y)
    → P (if b then x else y)
either P true x y h k = h refl
either P false x y h k = k refl
