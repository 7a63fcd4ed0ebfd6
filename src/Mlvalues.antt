-- ===== src/Mlvalues.antt =====
-- OCaml integers as the C code sees them: 63 bits, kept as a number below 2 ^ 63. A 64-bit word of
-- C is a number below 2 ^ 64, a negative one by its two's complement.
use ppx_universe.Base.{ℕ, ◌+◌, ◌-◌, ◌*◌, ◌%◌, ◌^◌, ◌<◌, ◌≡◌, arith, if◌then◌else◌, ltb}

-- Long_val: the sign of the 63 bits is extended to 64.
unfoldable pub long_val : ℕ → ℕ
long_val n = if ltb n (2 ^ 62) then n else n + 2 ^ 63

-- Val_long: the top bit is shifted out.
unfoldable pub val_long : ℕ → ℕ
val_long d = d % 2 ^ 63

-- Int_val on a machine of 64 bits: a C int, whose sign is extended where a word is wanted.
unfoldable pub int_val : ℕ → ℕ
int_val n = if ltb (n % 2 ^ 32) (2 ^ 31) then n % 2 ^ 32 else n % 2 ^ 32 + (2 ^ 64 - 2 ^ 32)

-- The word that represents an OCaml integer: one bit set under its 63.
unfoldable pub tagged : ℕ → ℕ
tagged n = 2 * n + 1

pub long_val-lt : (n : ℕ) → n < 2 ^ 63 → long_val n < 2 ^ 64
unfolding long_val
long_val-lt n h = ground arith

pub val_long-long_val : (n : ℕ) → n < 2 ^ 63 → val_long (long_val n) ≡ n
unfolding long_val val_long
val_long-long_val n h = ground arith
