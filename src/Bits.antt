-- ===== src/Bits.antt =====
-- C's `&` with a low mask and `|` of disjoint bit fields as arithmetic, at every width.
pub mod Xor
use Prim.Native.Nat.{
  min, max, digits, differ, bit_and-bitwise, bit_or-bitwise, bit_xor, bit_xor-bitwise,
}
use Prim.Native.Nat.add
use native.Mathlib.Nat.{
  pow-zero, pow-suc, pow-succ', one-le-pow, mul-one, div-one, div-div-eq-div-mul,
}
use ppx_universe.Base.{
  ℕ, zero, suc, ◌+◌, ◌-◌, ◌*◌, ◌/◌, ◌%◌, ◌^◌, ◌≤◌, ◌<◌, bit_and, bit_or, ◌≡◌, refl, ap, arith,
}

-- The digit recursion that the native operations stand for gives one value for any fuel that is
-- at least the number.
module _ (past : ℕ → ℕ) (op : ℕ → ℕ → ℕ) where
  enough_fuel : (p q x y : ℕ) → x ≤ p → x ≤ q → digits past op p x y ≡ digits past op q x y
  enough_fuel zero zero x y hp hq = refl
  enough_fuel zero (suc q) zero y hp hq = refl
  enough_fuel zero (suc q) (suc x) y hp hq = elim hp [ ]
  enough_fuel (suc p) zero zero y hp hq = refl
  enough_fuel (suc p) zero (suc x) y hp hq = elim hq [ ]
  enough_fuel (suc p) (suc q) zero y hp hq = refl
  enough_fuel (suc p) (suc q) (suc x) y hp hq =
      let half : ℕ = suc x / 2 in
      ap (λ (t : ℕ). t * 2 + op (suc x % 2) (y % 2))
        (enough_fuel p q half (y / 2) (omega arith) (omega arith))

pub bit_and_low : (x y : ℕ) → bit_and x y ≡ bit_and (x / 2) (y / 2) * 2 + min (x % 2) (y % 2)
bit_and_low zero y = omega (arith, bit_and-bitwise 0 y, bit_and-bitwise 0 (y / 2))
bit_and_low (suc x) y = omega (
  arith,
  bit_and-bitwise (suc x) y,
  bit_and-bitwise (suc x / 2) (y / 2),
  enough_fuel (λ _. 0) min x (suc x / 2) (suc x / 2) (y / 2) (omega arith) (omega arith),
)

pub bit_or_low : (x y : ℕ) → bit_or x y ≡ bit_or (x / 2) (y / 2) * 2 + max (x % 2) (y % 2)
bit_or_low zero y = omega (arith, bit_or-bitwise 0 y, bit_or-bitwise 0 (y / 2))
bit_or_low (suc x) y = omega (
  arith,
  bit_or-bitwise (suc x) y,
  bit_or-bitwise (suc x / 2) (y / 2),
  enough_fuel (λ b. b) max x (suc x / 2) (suc x / 2) (y / 2) (omega arith) (omega arith),
)

-- Induction on a bound, since the operations halve their arguments.
bit_and-zero_below : (n x : ℕ) → x ≤ n → bit_and x 0 ≡ 0
bit_and-zero_below n zero h = refl
bit_and-zero_below zero (suc x) h = elim h [ ]
bit_and-zero_below (suc n) (suc x) h =
    omega (arith, bit_and_low (suc x) 0, bit_and-zero_below n (suc x / 2) (omega arith))

bit_or-zero_below : (n x : ℕ) → x ≤ n → bit_or x 0 ≡ x
bit_or-zero_below n zero h = refl
bit_or-zero_below zero (suc x) h = elim h [ ]
bit_or-zero_below (suc n) (suc x) h =
    omega (arith, bit_or_low (suc x) 0, bit_or-zero_below n (suc x / 2) (omega arith))

scaled_suc : (q k : ℕ) → q * 2 ^ suc k ≡ 2 * (q * 2 ^ k)
scaled_suc q k = omega (arith, ap (λ (t : ℕ). q * t) (pow-suc 2 k))

pub bit_xor_low : (x y : ℕ) → bit_xor x y ≡ bit_xor (x / 2) (y / 2) * 2 + differ (x % 2) (y % 2)
bit_xor_low zero y = omega (arith, bit_xor-bitwise 0 y, bit_xor-bitwise 0 (y / 2))
bit_xor_low (suc x) y = omega (
  arith,
  bit_xor-bitwise (suc x) y,
  bit_xor-bitwise (suc x / 2) (y / 2),
  enough_fuel (λ b. b) differ x (suc x / 2) (suc x / 2) (y / 2) (omega arith) (omega arith),
)

-- `(q << k) | r` and `r | (q << k)` are sums where `r` has only the `k` low bits.
pub bit_or_fields : (k q r : ℕ) → r < 2 ^ k → bit_or (q * 2 ^ k) r ≡ q * 2 ^ k + r
bit_or_fields zero q r h = ground (arith, bit_or-zero_below q q)
bit_or_fields (suc k) q r h =
    let half = bit_or_fields k q (r / 2) (omega (arith, pow-suc 2 k)) in
    ground (arith, bit_or_low (q * 2 ^ suc k) r, scaled_suc q k, half)

pub bit_or_fields' : (k q r : ℕ) → r < 2 ^ k → bit_or r (q * 2 ^ k) ≡ q * 2 ^ k + r
bit_or_fields' zero q r h = ground (arith, bit_or-bitwise 0 q)
bit_or_fields' (suc k) q r h =
    let half = bit_or_fields' k q (r / 2) (omega (arith, pow-suc 2 k)) in
    ground (arith, bit_or_low r (q * 2 ^ suc k), scaled_suc q k, half)

-- `x & ((1 << k) - 1)` is the remainder by `2 ^ k`.
bit_and_fields : (k q r : ℕ) → r < 2 ^ k → bit_and (q * 2 ^ k + r) (2 ^ k - 1) ≡ r
bit_and_fields zero q r h = omega (arith, bit_and-zero_below (q * 2 ^ 0 + r) (q * 2 ^ 0 + r))
bit_and_fields (suc k) q r h =
    let half = bit_and_fields k q (r / 2) (omega (arith, pow-suc 2 k)) in
    ground (
      arith,
      bit_and_low (q * 2 ^ suc k + r) (2 ^ suc k - 1),
      scaled_suc q k,
      pow-suc 2 k,
      one-le-pow k 2,
      half,
    )

pub bit_and_mask : (k x : ℕ) → bit_and x (2 ^ k - 1) ≡ x % 2 ^ k
bit_and_mask k x = ground (arith, one-le-pow k 2, bit_and_fields k (x / 2 ^ k) (x % 2 ^ k))

-- A mask above `k` zeros reads the bits from `k` on.
bit_and-double : (x m : ℕ) → bit_and x (2 * m) ≡ 2 * bit_and (x / 2) m
bit_and-double x m =
    let half : 2 * m / 2 ≡ m = omega arith in rw (bit_and_low x (2 * m), half) (omega arith)

pub bit_and-shifted : (k x m : ℕ) → bit_and x (m * 2 ^ k) ≡ bit_and (x / 2 ^ k) m * 2 ^ k
bit_and-shifted zero x m = simp (pow-zero, mul-one, div-one)
bit_and-shifted (suc k) x m =
    rw (scaled_suc m k, bit_and-double x (m * 2 ^ k), bit_and-shifted k (x / 2) m)
      (rw (scaled_suc (bit_and (x / 2 ^ suc k) m) k, halved) refl)
  where
    halved : x / 2 ^ suc k ≡ x / 2 / 2 ^ k
    halved = rw (div-div-eq-div-mul, pow-succ') refl

pub pow-add : (b m n : ℕ) → b ^ (m + n) ≡ b ^ m * b ^ n
pow-add b zero n = rw (add.zero n, pow-zero) (omega arith)
pow-add b (suc m) n =
    rw (add.suc m n, pow-succ' b (m + n), pow-succ' b m, pow-add b m n) (omega arith)

pub two_pow-pos : (k : ℕ) → 0 < 2 ^ k
two_pow-pos k = one-le-pow k 2 (omega arith)
