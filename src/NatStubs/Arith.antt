-- ===== src/NatStubs/Arith.antt =====
-- The arithmetic primitives of num/src/nat_stubs.c: each reads its regions, calls the operation of
-- bng.c and writes what it leaves. A primitive and its _native twin are one function. Offsets,
-- lengths and shift counts are small and not negative, so Long_val leaves them as they are.
pub mod Sums
pub mod Products
pub mod Shifts
pub mod Quotients
use Prim.Native.Nat.{bit_xor, Ordering}
use ppx_universe.Base.{ℕ, List}
use ppx_universe.Bng.Number.{Carried}
use ppx_universe.Bng.Add.{bng_add_carry, bng_add, bng_sub_carry, bng_sub, bng_complement}
use ppx_universe.Bng.Compare.{bng_compare}
use ppx_universe.Bng.Shift.{bng_shift_left, bng_shift_right}
use ppx_universe.Bng.Mult.{to_carry, bng_mult_add_digit, bng_mult_add, bng_square_add}
use ppx_universe.Bng.DivRem.{bng_div_rem_digit, bng_div_rem}
use ppx_universe.Mlvalues.{long_val, val_long}
use ppx_universe.NatStubs.Heap.{Heap, digit_val, region, write, set_digit_val}

-- The heap that a primitive leaves and the OCaml integer that it returns.
pub record Returned : Type 0 where
  pub heap : Heap
  pub result : ℕ

-- The digits that an operation left are in their region; its carry is returned.
abbrev pub return_carry : Heap → ℕ → ℕ → Carried → Returned
return_carry h nat ofs r = record { heap = write h nat ofs r.digits; result = val_long r.carry }

-- The same with the carry turned from a borrow into OCaml's carry.
abbrev pub return_borrow : Heap → ℕ → ℕ → Carried → Returned
return_borrow h nat ofs r = record {
  heap = write h nat ofs r.digits;
  result = val_long (bit_xor 1 r.carry);
}

unfoldable pub incr_nat : Heap → ℕ → ℕ → ℕ → ℕ → Returned
incr_nat h nat ofs len carry_in =
    return_carry h nat ofs (bng_add_carry (region h nat ofs len) (to_carry (long_val carry_in)))

unfoldable pub add_nat : Heap → ℕ → ℕ → ℕ → ℕ → ℕ → ℕ → ℕ → Returned
add_nat h nat1 ofs1 len1 nat2 ofs2 len2 carry_in =
    return_carry h nat1 ofs1
      (bng_add (region h nat1 ofs1 len1) (region h nat2 ofs2 len2) (to_carry (long_val carry_in)))

unfoldable pub complement_nat : Heap → ℕ → ℕ → ℕ → Heap
complement_nat h nat ofs len = write h nat ofs (bng_complement (region h nat ofs len))

unfoldable pub decr_nat : Heap → ℕ → ℕ → ℕ → ℕ → Returned
decr_nat h nat ofs len carry_in =
    return_borrow h nat ofs
      (bng_sub_carry (region h nat ofs len) (to_carry (bit_xor 1 (long_val carry_in))))

unfoldable pub sub_nat : Heap → ℕ → ℕ → ℕ → ℕ → ℕ → ℕ → ℕ → Returned
sub_nat h nat1 ofs1 len1 nat2 ofs2 len2 carry_in = return_borrow h nat1 ofs1 (
    bng_sub (region h nat1 ofs1 len1) (region h nat2 ofs2 len2)
      (to_carry (bit_xor 1 (long_val carry_in))))

unfoldable pub mult_digit_nat : Heap → ℕ → ℕ → ℕ → ℕ → ℕ → ℕ → ℕ → ℕ → Returned
mult_digit_nat h nat1 ofs1 len1 nat2 ofs2 len2 nat3 ofs3 =
    return_carry h nat1 ofs1 (
      bng_mult_add_digit (region h nat1 ofs1 len1) (region h nat2 ofs2 len2)
        (digit_val h nat3 ofs3))

unfoldable pub mult_nat : Heap → ℕ → ℕ → ℕ → ℕ → ℕ → ℕ → ℕ → ℕ → ℕ → Returned
mult_nat h nat1 ofs1 len1 nat2 ofs2 len2 nat3 ofs3 len3 =
    return_carry h nat1 ofs1
      (bng_mult_add (region h nat1 ofs1 len1) (region h nat2 ofs2 len2) (region h nat3 ofs3 len3))

unfoldable pub square_nat : Heap → ℕ → ℕ → ℕ → ℕ → ℕ → ℕ → Returned
square_nat h nat1 ofs1 len1 nat2 ofs2 len2 =
    return_carry h nat1 ofs1 (bng_square_add (region h nat1 ofs1 len1) (region h nat2 ofs2 len2))

-- The digit that is returned by the operation is written behind the region.
unfoldable pub shift_left_nat : Heap → ℕ → ℕ → ℕ → ℕ → ℕ → ℕ → Heap
shift_left_nat h nat1 ofs1 len1 nat2 ofs2 nbits =
    let r = bng_shift_left (region h nat1 ofs1 len1) nbits in
    set_digit_val (write h nat1 ofs1 r.digits) nat2 ofs2 r.carry

unfoldable pub shift_right_nat : Heap → ℕ → ℕ → ℕ → ℕ → ℕ → ℕ → Heap
shift_right_nat h nat1 ofs1 len1 nat2 ofs2 nbits =
    let r = bng_shift_right (region h nat1 ofs1 len1) nbits in
    set_digit_val (write h nat1 ofs1 r.digits) nat2 ofs2 r.carry

-- The numerator is shifted there and back while it is divided.
unfoldable pub div_digit_nat : Heap → ℕ → ℕ → ℕ → ℕ → ℕ → ℕ → ℕ → ℕ → ℕ → Heap
div_digit_nat h natq ofsq natr ofsr nat1 ofs1 len1 nat2 ofs2 =
    let r = bng_div_rem_digit (region h nat1 ofs1 len1) (digit_val h nat2 ofs2) in
    set_digit_val (write (write h nat1 ofs1 r.numerator) natq ofsq r.quotient) natr ofsr r.rem

unfoldable pub div_nat : Heap → ℕ → ℕ → ℕ → ℕ → ℕ → ℕ → Heap
div_nat h nat1 ofs1 len1 nat2 ofs2 len2 =
    let r = bng_div_rem (region h nat1 ofs1 len1) (region h nat2 ofs2 len2) in
    write (write h nat2 ofs2 r.d) nat1 ofs1 r.n

unfoldable pub compare_nat : Heap → ℕ → ℕ → ℕ → ℕ → ℕ → ℕ → Ordering
compare_nat h nat1 ofs1 len1 nat2 ofs2 len2 =
    bng_compare (region h nat1 ofs1 len1) (region h nat2 ofs2 len2)
