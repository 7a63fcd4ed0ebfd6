-- ===== src/Zarith/Product/Parts.antt =====
-- What GMP documents of its products, and what is a product of integers.
use ppx_universe.Base.{
  ℕ, ◌+◌, ◌*◌, ◌%◌, ◌^◌, ◌≤◌, ◌<◌, ◌≡◌, inl, inr, refl, sym, ap, ap₂, ◌∙◌, List, [], ◌∷◌, Bool,
  true, false, not, ◌||◌, ◌==◌, length, get_or, arith, Bool-cases,
}
use ppx_universe.Mlvalues.{long_val, val_long}
use ppx_universe.Bng.Digit.{IsDigit}
use ppx_universe.Bng.Number.{IsTotal, IsNumber, value}
use ppx_universe.Zarith.{Z, long, Arg, z_arg, xor_sign, ml_z_reduce}
use ppx_universe.Zarith.Values.{
  signed, z_plus, z_minus, IsZ, IsSigned, long-IsSigned, zero-IsSigned, ml_z_reduce_lem,
}
use ppx_universe.Zarith.Exact.{empty}
use ppx_universe.Zarith.Quotient.{word}
use ppx_universe.Zarith.Product.{MpnProducts}
use ppx_universe.Zarith.Product.Words.{IsSmallArg, word-product, small_product}

-- The lengths that GMP asks for, and what it gives.
pub record IsMpnProducts (mpn : MpnProducts) : Type 0 where
  pub mul_1 :
      (a : List ℕ) (x : ℕ)
      → IsNumber a
      → IsDigit x
      → 0 < length a
      → IsTotal (value a * x) (length a) (mpn.mul_1 a x) × IsDigit (mpn.mul_1 a x).carry
  pub mul :
      (a b : List ℕ)
      → IsNumber a
      → IsNumber b
      → 0 < length b
      → length b ≤ length a
      → IsNumber (mpn.mul a b) × (value (mpn.mul a b) ≡ value a * value b)
  pub mul_n :
      (a b : List ℕ)
      → IsNumber a
      → IsNumber b
      → 0 < length b
      → length a ≡ length b
      → IsNumber (mpn.mul_n a b) × (value (mpn.mul_n a b) ≡ value a * value b)
  pub sqr :
      (a : List ℕ)
      → IsNumber a
      → 0 < length a
      → IsNumber (mpn.sqr a) × (value (mpn.sqr a) ≡ value a * value a)

-- The integer of the result is (p - m) * (q - n).
abbrev pub IsProduct : ℕ → ℕ → ℕ → ℕ → Z → Type 0
IsProduct p m q n r = IsZ r × (z_plus r + (p * n + m * q) ≡ z_minus r + (p * q + m * n))

-- The product of two arguments, by sign and number.
abbrev pub IsArgProduct : Arg → Arg → Z → Type 0
IsArgProduct a b r = IsSigned (xor_sign a.negative b.negative) (value a.limbs * value b.limbs) r

signed-IsProduct :
    (s t : Bool) (x y : ℕ) (r : Z)
    → IsSigned (xor_sign s t) (x * y) r
    → IsProduct (signed (not s) x) (signed s x) (signed (not t) y) (signed t y) r
signed-IsProduct true true x y r h = (h.valid, omega (arith, h.plus, h.minus))
signed-IsProduct true false x y r h = (h.valid, omega (arith, h.plus, h.minus))
signed-IsProduct false true x y r h = (h.valid, omega (arith, h.plus, h.minus))
signed-IsProduct false false x y r h = (h.valid, omega (arith, h.plus, h.minus))

pub args-IsProduct :
    (z1 z2 r : Z)
    → IsArgProduct (z_arg z1) (z_arg z2) r
    → IsProduct (z_plus z1) (z_minus z1) (z_plus z2) (z_minus z2) r
unfolding z_plus z_minus
args-IsProduct z1 z2 r h =
    signed-IsProduct (z_arg z1).negative (z_arg z2).negative (value (z_arg z1).limbs)
      (value (z_arg z2).limbs) r h

pub reduced-IsSigned :
    (r : List ℕ) (s : Bool) (m : ℕ) → IsNumber r × (value r ≡ m) → IsSigned s m (ml_z_reduce r s)
reduced-IsSigned r s m (number, total) = rw (sym total) (ml_z_reduce_lem r s number)

-- The only limb of a number.
pub one_limb :
    (b : List ℕ) → IsNumber b → length b ≡ 1 → IsDigit (get_or b 0 0) × (value b ≡ get_or b 0 0)
one_limb [] hb e = absurd (omega arith)
one_limb (y ∷ []) (hy, hb) e = (hy, omega arith)
one_limb (y ∷ y' ∷ ys) hb e = absurd (omega arith)

pub zero-IsProduct : (s : Bool) (m : ℕ) → m ≡ 0 → IsSigned s m (long 0)
zero-IsProduct s m e = rw e (zero-IsSigned s)

pub zero_product :
    (a b : List ℕ) → ((length a == 0) || (length b == 0)) ≡ true → value a * value b ≡ 0
zero_product a b e = elim (Bool-cases (length a == 0)) [
  | inl z ↦ ap (λ n. n * value b) (empty a (ground arith)) ∙ omega arith
  | inr z ↦ ap (λ n. value a * n) (empty b (ground arith)) ∙ omega arith
]

-- Z_ARG of 0 has no limbs.
zero_arg : (n : ℕ) → (long_val n == 0) ≡ true → length (z_arg (long n)).limbs ≡ 0
unfolding z_arg
zero_arg n e = rw e refl

pub zero_args :
    (a b : ℕ)
    → ((long_val a == 0) || (long_val b == 0)) ≡ true
    → ((length (z_arg (long a)).limbs == 0) || (length (z_arg (long b)).limbs == 0)) ≡ true
zero_args a b e = elim (Bool-cases (long_val a == 0)) [
  | inl z ↦ let n = zero_arg a z in ground arith
  | inr z ↦ let n = zero_arg b (ground arith) in ground arith
]

-- The path over native integers.
pub small_args-IsArgProduct :
    (a b : Arg) (w v : ℕ)
    → IsSmallArg w a
    → IsSmallArg v b
    → IsArgProduct a b (long (val_long (w * v % 2 ^ 64)))
small_args-IsArgProduct a b w v (ew, small_a) (ev, small_b) =
    let x = value a.limbs in
    let y = value b.limbs in
    let total : w * v % 2 ^ 64 ≡ word (xor_sign a.negative b.negative) (x * y) =
      ap₂ (λ m n. m * n % 2 ^ 64) ew ev ∙ word-product a.negative b.negative x y small_a small_b in
    rw total (
      long-IsSigned (xor_sign a.negative b.negative) (x * y)
        (omega (arith, small_product x y small_a small_b)))
