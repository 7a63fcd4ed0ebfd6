-- ===== src/Bng/Compare.antt =====
-- bng_leading_zero_bits, bng_num_digits and bng_compare of num/src/bng.c. The -1, 0 and 1 of
-- bng_compare are the library's `Ordering`.
pub mod Sizes
pub mod Order
pub mod Normalize
use Prim.Native.Nat.{compare, Ordering}
use ppx_universe.Base.{
  ℕ, zero, suc, ◌-◌, ◌*◌, ◌/◌, ◌^◌, List, bit_and, not, if◌then◌else◌, ◌==◌, ltb, length, get_or,
}

pub record ZeroBits : Type 0 where
  pub n : ℕ
  pub d : ℕ

-- `if ((d & mask) != 0) { n -= bits; d = d >> bits; }`
unfoldable pub narrow : ℕ → ℕ → ZeroBits → ZeroBits
narrow mask bits s =
    if not (bit_and s.d mask == 0) then record { n = s.n - bits; d = s.d / 2 ^ bits } else s

unfoldable pub bng_leading_zero_bits : ℕ → ℕ
unfolding narrow
bng_leading_zero_bits d =
    let s = narrow 0xffff_ffff_0000_0000 32 (record { n = 64; d = d }) in
    let s = narrow 0xffff_0000 16 s in
    let s = narrow 0xff00 8 s in
    let s = narrow 0xf0 4 s in let s = narrow 0xc 2 s in let s = narrow 2 1 s in s.n - s.d

-- The loop of bng_num_digits at a given `alen`.
unfoldable pub num_digits_loop : List ℕ → ℕ → ℕ
num_digits_loop a zero = 1
num_digits_loop a (suc alen) =
    let rest = num_digits_loop a alen in if not (get_or a alen 0 == 0) then suc alen else rest

unfoldable pub bng_num_digits : List ℕ → ℕ
unfolding num_digits_loop
bng_num_digits a = num_digits_loop a (length a)

-- `while (alen > 0 && a[alen-1] == 0) alen--;`
unfoldable pub strip_zeros : List ℕ → ℕ → ℕ
strip_zeros a zero = 0
strip_zeros a (suc alen) =
    let rest = strip_zeros a alen in if get_or a alen 0 == 0 then rest else suc alen

-- The last loop of bng_compare, over numbers of `alen` digits.
unfoldable pub compare_loop : List ℕ → List ℕ → ℕ → Ordering
compare_loop a b zero = Ordering.eq
compare_loop a b (suc alen) =
    let da = get_or a alen 0 in
    let db = get_or b alen 0 in
    let rest = compare_loop a b alen in
    if ltb db da then Ordering.gt else if ltb da db then Ordering.lt else rest

unfoldable pub bng_compare : List ℕ → List ℕ → Ordering
unfolding strip_zeros compare_loop
bng_compare a b =
    let alen = strip_zeros a (length a) in
    let blen = strip_zeros b (length b) in
    if ltb blen alen
    then Ordering.gt
    else if ltb alen blen
    then Ordering.lt
    else compare_loop a b alen
