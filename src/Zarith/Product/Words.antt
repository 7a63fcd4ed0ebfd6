-- ===== src/Zarith/Product/Words.antt =====
-- Products of words on the path over native integers.
use ppx_universe.Base.{
  ℕ, ◌+◌, ◌*◌, ◌%◌, ◌^◌, ◌≤◌, ◌<◌, ◌≡◌, inl, inr, ap, Bool, true, false, ◌==◌, leb, ltb, arith,
  Bool-cases,
}
use native.Mathlib.Nat.{mul-le-mul}
use ppx_universe.Mlvalues.{long_val, tagged}
use ppx_universe.Bng.Number.{value}
use ppx_universe.Zarith.{long, Arg, z_arg, negated, xor_sign}
use ppx_universe.Zarith.Product.{z_fits_hint}
use ppx_universe.Zarith.Quotient.{word}

-- At most 2 ^ 29, the least one included, and not 0.
abbrev pub IsSmall : ℕ → Type 0
IsSmall x = (0 < x) × (x ≤ 2 ^ 29)

pub small_product : (x y : ℕ) → IsSmall x → IsSmall y → (0 < x * y) × (x * y ≤ 2 ^ 58)
small_product x y (px, hx) (py, hy) = (
  mul-le-mul {n₁ = 1} {m₁ = 1} {n₂ = x} {m₂ = y} px py,
  mul-le-mul {n₁ = x} {m₁ = y} {n₂ = 2 ^ 29} {m₂ = 2 ^ 29} hx hy,
)

-- The opposite of a factor.
opposite : (x y v : ℕ) → v + y ≡ 2 ^ 64 → x * v + x * y ≡ 2 ^ 64 * x
opposite x y v e = omega (arith, ap (λ (n : ℕ). x * n) e)

low_word : (p t k : ℕ) → p + t ≡ 2 ^ 64 * k → 0 < t → t ≤ 2 ^ 58 → p % 2 ^ 64 ≡ negated t
low_word p t k e h bound = omega arith

high_words : (p t j k : ℕ) → p + 2 ^ 64 * j ≡ 2 ^ 64 * k + t → t ≤ 2 ^ 58 → p % 2 ^ 64 ≡ t
high_words p t j k e bound = omega arith

negated-add : (x : ℕ) → IsSmall x → negated x + x ≡ 2 ^ 64
negated-add x (px, hx) = omega arith

pub word-product :
    (s t : Bool) (x y : ℕ)
    → IsSmall x
    → IsSmall y
    → (word s x * word t y) % 2 ^ 64 ≡ word (xor_sign s t) (x * y)
word-product true true x y hx hy =
    let (pos, small) = small_product x y hx hy in
    high_words (negated x * negated y) (x * y) y (negated x)
      (omega (
        arith,
        opposite (negated x) y (negated y) (negated-add y hy),
        opposite y x (negated x) (negated-add x hx),
      ))
      small
word-product true false x y hx hy =
    let (pos, small) = small_product x y hx hy in
    low_word (negated x * y) (x * y) y (omega (arith, opposite y x (negated x) (negated-add x hx)))
      pos small
word-product false true x y hx hy =
    let (pos, small) = small_product x y hx hy in
    low_word (x * negated y) (x * y) x (opposite x y (negated y) (negated-add y hy)) pos small
word-product false false x y hx hy =
    let (pos, small) = small_product x y hx hy in omega (arith, small)

-- What Z_ARG makes of an OCaml integer that is not 0 and fits the hint.
abbrev pub IsSmallArg : ℕ → Arg → Type 0
IsSmallArg w a = (w ≡ word a.negative (value a.limbs)) × IsSmall (value a.limbs)

pub small_arg :
    (n : ℕ)
    → n < 2 ^ 63
    → (long_val n == 0) ≡ false
    → z_fits_hint n ≡ true
    → IsSmallArg (long_val n) (z_arg (long n))
unfolding z_arg long_val z_fits_hint tagged
small_arg n h nonzero fits = elim (Bool-cases (ltb n (2 ^ 62))) [
  | inl e ↦
      let a : leb (2 ^ 63) n ≡ false = ground arith in
      let z : (n == 0) ≡ false = ground arith in
      rw (e, a, z) (ground arith, (ground arith, ground arith))
  | inr e ↦
      let a : leb (2 ^ 63) (n + 2 ^ 63) ≡ true = ground arith in
      let z : ((n + 2 ^ 63) == 0) ≡ false = ground arith in
      rw (e, a, z) (ground arith, (ground arith, ground arith))
]
