-- ===== src/Bng/Compare/Normalize.antt =====
-- bng_leading_zero_bits counts the zeros above the top bit of a digit.
use native.Mathlib.Nat.{
  div-div-eq-div-mul, mul-le-mul_left, mul-le-mul_right, le-div_iff_mul-le, div-lt_iff_lt-mul,
  mod-eq_of_lt,
}
use ppx_universe.Base.{
  ℕ, suc, ◌+◌, ◌-◌, ◌*◌, ◌/◌, ◌^◌, ◌≤◌, ◌<◌, ◌≡◌, refl, sym, ◌∙◌, bit_and, ◌==◌, arith, ap,
  Bool-cases, inl, inr, ◌≢◌,
}
use ppx_universe.Bits.{two_pow-pos, pow-add, bit_and_mask, bit_and-shifted}
use ppx_universe.Bng.Digit.{base, IsDigit}
use ppx_universe.Bng.Compare.{ZeroBits, narrow, bng_leading_zero_bits}

-- After the tests so far `s.d` is `d` without its 64 - s.n low bits, and has `w` bits at most.
record IsNarrowed (d w : ℕ) (s : ZeroBits) : Type 0 where
  dropped : ℕ
  counted : s.n + dropped ≡ 64
  shifted : s.d ≡ d / 2 ^ dropped
  nonzero : 0 < s.d
  small : s.d < 2 ^ w
  room : w ≤ s.n

-- What `(d & mask) != 0` tests: whether a bit from `k` on is set.
masked : (k d : ℕ) → d < 2 ^ (k + k) → bit_and d ((2 ^ k - 1) * 2 ^ k) ≡ d / 2 ^ k * 2 ^ k
masked k d h =
    let fits : d / 2 ^ k < 2 ^ k =
      (div-lt_iff_lt-mul {k = 2 ^ k} {x = d} {y = 2 ^ k} (two_pow-pos k)).1
        (rw (pow-add 2 k k) at h) in
    rw (bit_and-shifted k d (2 ^ k - 1), bit_and_mask k (d / 2 ^ k), mod-eq_of_lt fits)

-- The quotient by a power is zero exactly if its multiple is.
below_power : (k d : ℕ) → d / 2 ^ k * 2 ^ k ≡ 0 → d < 2 ^ k
below_power k d e =
    let less = div-lt_iff_lt-mul {k = 2 ^ k} {x = d} {y = 1} (two_pow-pos k) in
    omega (arith, less.0 (omega (arith, mul-le-mul_left (d / 2 ^ k) (two_pow-pos k))))

above_power : (k d : ℕ) → d / 2 ^ k * 2 ^ k ≢ 0 → 0 < d / 2 ^ k
above_power k d h = grind arith

-- One test, on a mask of `k` bits above `k` zeros.
narrow_lem :
    (d k mask : ℕ) (s : ZeroBits)
    → mask ≡ (2 ^ k - 1) * 2 ^ k
    → IsNarrowed d (k + k) s
    → IsNarrowed d k (narrow mask k s)
unfolding narrow
narrow_lem d k mask s e inv =
    let test : bit_and s.d mask ≡ s.d / 2 ^ k * 2 ^ k = rw e (masked k s.d inv.small) in
    elim (Bool-cases (bit_and s.d mask == 0)) [
      | inl clear ↦ rw clear (record {
        dropped = inv.dropped;
        counted = inv.counted;
        shifted = inv.shifted;
        nonzero = inv.nonzero;
        small = below_power k s.d (ground arith);
        room = omega (arith, inv.room);
      })
      | inr found ↦ rw found (record {
        dropped = inv.dropped + k;
        counted = omega (arith, inv.counted, inv.room);
        shifted =
            rw (pow-add 2 inv.dropped k, ← div-div-eq-div-mul)
              (ap (λ (t : ℕ). t / 2 ^ k) inv.shifted);
        nonzero = above_power k s.d (ground arith);
        small =
            (div-lt_iff_lt-mul {k = 2 ^ k} {x = s.d} {y = 2 ^ k} (two_pow-pos k)).1
              (rw (pow-add 2 k k) at inv.small);
        room = omega (arith, inv.room);
      })
    ]

-- The last digit left is 1, so the bits dropped are those below the top bit.
normalized :
    (d : ℕ) (s : ZeroBits)
    → IsNarrowed d 1 s
    → (s.n - s.d < 64) × (2 ^ 63 ≤ d * 2 ^ (s.n - s.d)) × (d * 2 ^ (s.n - s.d) < base)
normalized d s inv =
    let t = inv.dropped in
    let r = s.n - s.d in
    let one : s.d ≡ 1 = omega (arith, inv.nonzero, inv.small) in
    let sum : t + r ≡ 63 = omega (arith, inv.counted, inv.room) in
    let whole : 2 ^ t * 2 ^ r ≡ 2 ^ 63 = sym (pow-add 2 t r) ∙ ap (λ (k : ℕ). 2 ^ k) sum in
    let low : 1 * 2 ^ t ≤ d =
      (le-div_iff_mul-le {k = 2 ^ t} {x = 1} {y = d} (two_pow-pos t)).0
        (omega (arith, inv.shifted)) in
    let high : d < 2 * 2 ^ t =
      (div-lt_iff_lt-mul {k = 2 ^ t} {x = d} {y = 2} (two_pow-pos t)).0
        (omega (arith, inv.shifted)) in
    (
      omega (arith, inv.counted, inv.room),
      omega (arith, mul-le-mul_right {m = 2 ^ t} {n = d} (2 ^ r) (omega arith)),
      omega (arith, two_pow-pos r, mul-le-mul_right {m = suc d} {n = 2 * 2 ^ t} (2 ^ r) high),
    )

untouched : (d : ℕ) → 0 < d → IsDigit d → IsNarrowed d 64 (record { n = 64; d = d })
untouched d pos h = record {
  dropped = 0;
  counted = refl;
  shifted = omega arith;
  nonzero = pos;
  small = h;
  room = omega arith;
}

-- For a digit other than 0, bng_leading_zero_bits is below 64 and is the shift that brings the top
-- bit of the digit to the top of the word without losing a bit.
pub bng_leading_zero_bits_lem :
    (d : ℕ)
    → 0 < d
    → IsDigit d
    → (bng_leading_zero_bits d < 64)
      × (2 ^ 63 ≤ d * 2 ^ bng_leading_zero_bits d)
      × (d * 2 ^ bng_leading_zero_bits d < base)
unfolding bng_leading_zero_bits
bng_leading_zero_bits_lem d pos h = normalized d _ (
    narrow_lem d 1 2 _ refl (
      narrow_lem d 2 0xc _ refl (
        narrow_lem d 4 0xf0 _ refl (
          narrow_lem d 8 0xff00 _ refl (
            narrow_lem d 16 0xffff_0000 _ refl
              (narrow_lem d 32 0xffff_ffff_0000_0000 _ refl (untouched d pos h)))))))

bng_leading_zero_bits-zero : bng_leading_zero_bits 0 ≡ 64
unfolding bng_leading_zero_bits
bng_leading_zero_bits-zero = refl
