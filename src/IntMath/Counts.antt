-- ===== src/IntMath/Counts.antt =====
-- The bit counts, over builtins of which the documented behaviour is a hypothesis.
use native.Mathlib.Nat.{lt_of_mul-lt-mul_right, mul-le-mul_right}
use ppx_universe.Base.{
  ℕ, suc, ◌+◌, ◌-◌, ◌*◌, ◌%◌, ◌^◌, ◌≤◌, ◌<◌, ◌≡◌, sym, ap, ◌∙◌, arith, Bool-cases, ◌==◌, inl, inr,
}
use ppx_universe.Bits.{bit_and_mask, pow-add, two_pow-pos}
use ppx_universe.Mlvalues.{long_val, int_val, tagged}
use ppx_universe.IntMath.{int_popcount, int_clz_untagged, int_ctz_untagged, int_ctz}

-- __builtin_clzll of a word that is not 0 counts the zero bits above its highest bit.
pub record IsClzll (clzll : ℕ → ℕ) : Type 0 where
  pub few : (v : ℕ) → 0 < v → v < 2 ^ 64 → clzll v < 64
  pub high : (v : ℕ) → 0 < v → v < 2 ^ 64 → 2 ^ 63 ≤ v * 2 ^ clzll v
  pub fits : (v : ℕ) → 0 < v → v < 2 ^ 64 → v * 2 ^ clzll v < 2 ^ 64

-- Whatever the builtin, int_popcount passes it exactly the 63 bits of the integer, without the bit
-- that the sign extension sets.
pub int_popcount_lem :
    (popcountll : ℕ → ℕ) (n : ℕ) → n < 2 ^ 63 → int_popcount popcountll n ≡ popcountll n
unfolding int_popcount long_val
int_popcount_lem popcountll n h =
    let masked = bit_and_mask 63 (long_val n) in ap popcountll (ground (arith, masked))

-- Without the tag bit, a count of `c` below 63 is that of the integer.
untag : (n c : ℕ) → c < 63 → 2 ^ 63 ≤ (2 * n + 1) * 2 ^ c → 2 ^ 62 ≤ n * 2 ^ c
untag n c hc h =
    let p = 2 ^ c in
    let q = 2 ^ (62 - c) in
    let sum : c + (62 - c) ≡ 62 = omega arith in
    let split : p * q ≡ 2 ^ 62 = sym (pow-add 2 c (62 - c)) ∙ ap (λ (k : ℕ). 2 ^ k) sum in
    let less = lt_of_mul-lt-mul_right p {m = q} {n = suc n} (omega (arith, split, two_pow-pos c)) in
    omega (arith, split, mul-le-mul_right {m = q} {n = n} p (omega arith))

-- A word above 1 has its highest bit above the lowest.
count_below : (c n : ℕ) → c < 64 → 0 < n → (2 * n + 1) * 2 ^ c < 2 ^ 64 → c < 63
count_below c n few pos fits = elim (Bool-cases (c == 63)) [
  | inl e ↦
      let is : c ≡ 63 = ground arith in
      let top : 2 ^ c ≡ 2 ^ 63 = ap (λ (k : ℕ). 2 ^ k) is in
      absurd (omega (arith, top, ap (λ (t : ℕ). n * t) top))
  | inr e ↦ ground arith
]

-- With a builtin that counts the leading zeros of words other than 0, int_clz_untagged of the
-- tagged word of an integer other than 0 is below 63 and is the count of the leading zeros among
-- its 63 bits.
pub int_clz_untagged_lem :
    (clzll : ℕ → ℕ) (n : ℕ)
    → IsClzll clzll
    → 0 < n
    → n < 2 ^ 63
    → let c = int_clz_untagged clzll (tagged n) in
      (c < 63) × (2 ^ 62 ≤ n * 2 ^ c) × (n * 2 ^ c < 2 ^ 63)
unfolding int_clz_untagged tagged
int_clz_untagged_lem clzll n builtin pos h =
    let v = 2 * n + 1 in
    let c = clzll v in
    let few = builtin.few v (omega arith) (omega arith) in
    let high = builtin.high v (omega arith) (omega arith) in
    let fits = builtin.fits v (omega arith) (omega arith) in
    let below : c < 63 = count_below c n few pos fits in (below, untag n c below high, omega arith)

-- Whatever the builtin, Base_int_math_int_ctz of an integer whose low 32 bits are 0 passes it the
-- word 0, on which the builtin is undefined, also where the integer is not 0.
pub int_ctz-low_zeros :
    (ctzll : ℕ → ℕ) (n : ℕ) → n % 2 ^ 32 ≡ 0 → int_ctz ctzll n ≡ int_ctz_untagged ctzll 0
unfolding int_ctz int_val
int_ctz-low_zeros ctzll n h = ap (int_ctz_untagged ctzll) (ground arith)
