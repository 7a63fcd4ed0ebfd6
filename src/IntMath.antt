-- ===== src/IntMath.antt =====
-- base/src/int_math_stubs.c on a machine of 64 bits: powers, and the bit counts over the compiler's
-- builtins, which are parameters. Products of int64_t keep the low 64 bits.
pub mod Congruence
pub mod Power
pub mod Counts
mod Tests
use ppx_universe.Base.{
  ℕ, zero, suc, ◌+◌, ◌-◌, ◌*◌, ◌/◌, ◌%◌, ◌^◌, true, false, Option, none, some, bit_and,
  if◌then◌else◌, ltb, ◌==◌,
}
use ppx_universe.Mlvalues.{long_val, val_long, int_val}

abbrev pub word : ℕ
word = 2 ^ 64

-- `exponent >>= 2` keeps the sign.
unfoldable pub shift_exponent : ℕ → ℕ
shift_exponent e = if ltb e (2 ^ 63) then e / 4 else e / 4 + 3 * 2 ^ 62

-- The variables of int_pow. mul[0] is 1, and mul[2] is written in each round before it is read.
pub record PowState : Type 0 where
  pub ret : ℕ
  pub mul1 : ℕ
  pub mul3 : ℕ
  pub exponent : ℕ

-- mul[i]
unfoldable pub mul_at : ℕ → ℕ → ℕ → ℕ → ℕ
mul_at mul1 mul2 mul3 i =
    if i == 0 then 1 else if i == 1 then mul1 else if i == 2 then mul2 else mul3

unfoldable pub pow_round : PowState → PowState
unfolding mul_at shift_exponent
pow_round s =
    let mul1 = s.mul1 * s.mul3 % word in
    let mul2 = mul1 * mul1 % word in
    let mul3 = mul2 * mul1 % word in
    record {
      ret = s.ret * mul_at mul1 mul2 mul3 (bit_and s.exponent 3) % word;
      mul1 = mul1;
      mul3 = mul3;
      exponent = shift_exponent s.exponent;
    }

-- `while (exponent != 0)`, with fuel; `none` where it does not suffice.
unfoldable pub int_pow_loop : ℕ → PowState → Option ℕ
int_pow_loop zero s = none
int_pow_loop (suc fuel) s = elim (s.exponent == 0) [
  | true ↦ some s.ret
  | false ↦ int_pow_loop fuel (pow_round s)
]

-- The rounds given are more than an exponent of 63 bits takes (Power).
unfoldable pub int_pow : ℕ → ℕ → Option ℕ
int_pow base exponent =
    int_pow_loop 33 (record { ret = 1; mul1 = base; mul3 = 1; exponent = exponent })

unfoldable pub returned : Option ℕ → Option ℕ
returned none = none
returned (some n) = some (val_long n)

-- Base_int_math_int_pow_stub
unfoldable pub int_pow_stub : ℕ → ℕ → Option ℕ
int_pow_stub base exponent = returned (int_pow (long_val base) (long_val exponent))

-- Base_int_math_int64_pow_stub, on the contents of the boxes.
unfoldable pub int64_pow_stub : ℕ → ℕ → Option ℕ
int64_pow_stub base exponent = int_pow base exponent

-- Base_int_math_int_popcount
unfoldable pub int_popcount : (ℕ → ℕ) → ℕ → ℕ
int_popcount popcountll v = popcountll (bit_and (long_val v) (word - 1 - 1 * 2 ^ 63 % word))

-- Base_int_math_int_clz_untagged: the argument is the word that represents the integer.
unfoldable pub int_clz_untagged : (ℕ → ℕ) → ℕ → ℕ
int_clz_untagged clzll v = clzll v

-- Base_int_math_int_ctz_untagged: the argument is the integer itself.
unfoldable pub int_ctz_untagged : (ℕ → ℕ) → ℕ → ℕ
int_ctz_untagged ctzll v = ctzll v

-- Base_int_math_int_ctz, which bytecode calls.
unfoldable pub int_ctz : (ℕ → ℕ) → ℕ → ℕ
int_ctz ctzll v = int_ctz_untagged ctzll (int_val v)
