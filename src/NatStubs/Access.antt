-- ===== src/NatStubs/Access.antt =====
-- The primitives of num/src/nat_stubs.c that make nats, move digits and test or set one digit.
pub mod Digits
pub mod Moves
use Prim.Native.Nat.{bit_xor, Ordering}
use ppx_universe.Base.{
  ℕ, zero, suc, ◌-◌, ◌*◌, ◌%◌, ◌^◌, List, [], ◌∷◌, ◌++◌, Bool, true, false, not, bit_and, bit_or,
  if◌then◌else◌, ltb, leb, ◌==◌, length,
}
use ppx_universe.Bng.Digit.{base}
use ppx_universe.Bng.Compare.{bng_num_digits, bng_leading_zero_bits}
use ppx_universe.Mlvalues.{long_val, val_long}
use ppx_universe.NatStubs.Heap.{Heap, digits_of, digit_val, region, write, set_digit_val}

-- The heap with a new nat, and the nat. The digits that the allocation happens to hold are given.
pub record Created : Type 0 where
  pub heap : Heap
  pub nat : ℕ

unfoldable pub garbage : (ℕ → ℕ) → ℕ → List ℕ
garbage found zero = []
garbage found (suc size) = (found size % base) ∷ garbage found size

unfoldable pub create_nat : (ℕ → ℕ) → Heap → ℕ → Created
unfolding garbage
create_nat found h size = record { heap = h ++ (garbage found size ∷ []); nat = length h }

-- Wosize_val(nat) counts the digits and the word of the custom operations.
unfoldable pub length_nat : Heap → ℕ → ℕ
length_nat h nat = suc (length (digits_of h nat)) - 1

-- bng_zero
unfoldable pub zeros : ℕ → List ℕ
zeros zero = []
zeros (suc len) = 0 ∷ zeros len

unfoldable pub set_to_zero_nat : Heap → ℕ → ℕ → ℕ → Heap
set_to_zero_nat h nat ofs len = write h nat ofs (zeros len)

-- bng_assign is memmove: all is read before it is written.
unfoldable pub blit_nat : Heap → ℕ → ℕ → ℕ → ℕ → ℕ → Heap
blit_nat h nat1 ofs1 nat2 ofs2 len = write h nat1 ofs1 (region h nat2 ofs2 len)

unfoldable pub set_digit_nat : Heap → ℕ → ℕ → ℕ → Heap
set_digit_nat h nat ofs digit = set_digit_val h nat ofs (long_val digit)

unfoldable pub nth_digit_nat : Heap → ℕ → ℕ → ℕ
nth_digit_nat h nat ofs = val_long (digit_val h nat ofs)

-- A boxed nativeint holds all 64 bits of a digit.
unfoldable pub set_digit_nat_native : Heap → ℕ → ℕ → ℕ → Heap
set_digit_nat_native h nat ofs digit = set_digit_val h nat ofs digit

unfoldable pub nth_digit_nat_native : Heap → ℕ → ℕ → ℕ
nth_digit_nat_native h nat ofs = digit_val h nat ofs

unfoldable pub num_digits_nat : Heap → ℕ → ℕ → ℕ → ℕ
num_digits_nat h nat ofs len = val_long (bng_num_digits (region h nat ofs len))

unfoldable pub num_leading_zero_bits_in_digit : Heap → ℕ → ℕ → ℕ
num_leading_zero_bits_in_digit h nat ofs = val_long (bng_leading_zero_bits (digit_val h nat ofs))

-- Max_long is 2 ^ 62 - 1.
unfoldable pub is_digit_int : Heap → ℕ → ℕ → Bool
is_digit_int h nat ofs = leb (digit_val h nat ofs) (2 ^ 62 - 1)

unfoldable pub is_digit_zero : Heap → ℕ → ℕ → Bool
is_digit_zero h nat ofs = digit_val h nat ofs == 0

unfoldable pub is_digit_normalized : Heap → ℕ → ℕ → Bool
is_digit_normalized h nat ofs = not (bit_and (digit_val h nat ofs) (1 * 2 ^ (64 - 1) % base) == 0)

unfoldable pub is_digit_odd : Heap → ℕ → ℕ → Bool
is_digit_odd h nat ofs = not (bit_and (digit_val h nat ofs) 1 == 0)

-- The digits are compared as unsigned words.
unfoldable pub compare_digits_nat : Heap → ℕ → ℕ → ℕ → ℕ → Ordering
compare_digits_nat h nat1 ofs1 nat2 ofs2 =
    let d1 = digit_val h nat1 ofs1 in
    let d2 = digit_val h nat2 ofs2 in
    if ltb d2 d1 then Ordering.gt else if ltb d1 d2 then Ordering.lt else Ordering.eq

unfoldable pub land_digit_nat : Heap → ℕ → ℕ → ℕ → ℕ → Heap
land_digit_nat h nat1 ofs1 nat2 ofs2 =
    set_digit_val h nat1 ofs1 (bit_and (digit_val h nat1 ofs1) (digit_val h nat2 ofs2))

unfoldable pub lor_digit_nat : Heap → ℕ → ℕ → ℕ → ℕ → Heap
lor_digit_nat h nat1 ofs1 nat2 ofs2 =
    set_digit_val h nat1 ofs1 (bit_or (digit_val h nat1 ofs1) (digit_val h nat2 ofs2))

unfoldable pub lxor_digit_nat : Heap → ℕ → ℕ → ℕ → ℕ → Heap
lxor_digit_nat h nat1 ofs1 nat2 ofs2 =
    set_digit_val h nat1 ofs1 (bit_xor (digit_val h nat1 ofs1) (digit_val h nat2 ofs2))
