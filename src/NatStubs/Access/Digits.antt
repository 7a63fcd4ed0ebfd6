-- ===== src/NatStubs/Access/Digits.antt =====
-- One digit: what the tests say, and what passes between a digit and an OCaml integer.
use Prim.Native.Nat.{compare}
use ppx_universe.Base.{ℕ, ◌*◌, ◌/◌, ◌%◌, ◌^◌, ◌≤◌, ◌<◌, ◌≡◌, ◌↔◌, [], ◌∷◌, arith, true, bit_and}
use ppx_universe.Bits.{bit_and_mask, bit_and-shifted}
use ppx_universe.Bng.Digit.{IsDigit}
use ppx_universe.Mlvalues.{long_val-lt, val_long-long_val, long_val, val_long}
use ppx_universe.NatStubs.Heap.{Heap, IsHeap, digit_val, set_digit_val, InBounds, IsUpdate}
use ppx_universe.NatStubs.Heap.Updates.{digit_val-IsDigit}
use ppx_universe.NatStubs.Heap.Several.{write-IsWritten, digit_val-region}
use ppx_universe.NatStubs.Access.{
  set_digit_nat, nth_digit_nat, is_digit_int, is_digit_normalized, is_digit_odd, compare_digits_nat,
}

pub set_digit_val_lem :
    (h : Heap) (nat pos d : ℕ)
    → IsHeap h
    → InBounds h nat pos 1
    → IsDigit d
    → (digit_val (set_digit_val h nat pos d) nat pos ≡ d)
      × IsUpdate h nat pos 1 (set_digit_val h nat pos d)
unfolding set_digit_val
set_digit_val_lem h nat pos d hs hin hd =
    let w = write-IsWritten h nat pos 1 (d ∷ []) hs hin (hd, tt) (omega arith) in
    (digit_val-region (set_digit_val h nat pos d) nat pos d w.now, w.update)

-- nth_digit_nat after set_digit_nat at one place in bounds gives back every 63-bit OCaml integer,
-- and no other digit of any nat changes.
pub nth_digit_nat-set_digit_nat :
    (h : Heap) (nat ofs n : ℕ)
    → IsHeap h
    → InBounds h nat ofs 1
    → n < 2 ^ 63
    → (nth_digit_nat (set_digit_nat h nat ofs n) nat ofs ≡ n)
      × IsUpdate h nat ofs 1 (set_digit_nat h nat ofs n)
unfolding nth_digit_nat set_digit_nat
nth_digit_nat-set_digit_nat h nat ofs n hs hin hn =
    let (now, update) = set_digit_val_lem h nat ofs (long_val n) hs hin (long_val-lt n hn) in
    (rw now (val_long-long_val n hn), update)

-- is_digit_int holds exactly when nth_digit_nat gives an OCaml integer that is not negative and
-- that Long_val turns back into the digit.
pub is_digit_int_lem :
    (h : Heap) (nat ofs : ℕ)
    → IsHeap h
    → (is_digit_int h nat ofs ≡ true) ↔ (
        (long_val (nth_digit_nat h nat ofs) ≡ digit_val h nat ofs)
        × (nth_digit_nat h nat ofs < 2 ^ 62))
unfolding is_digit_int nth_digit_nat long_val val_long
is_digit_int_lem h nat ofs hs =
    let hd = digit_val-IsDigit h nat ofs hs in
    (λ e. (ground arith, ground arith), λ p. ground arith)

top_bit : (d : ℕ) → IsDigit d → bit_and d (2 ^ 63) ≡ d / 2 ^ 63 * 2 ^ 63
top_bit d hd =
    let shifted = bit_and-shifted 63 d 1 in
    let low = bit_and_mask 1 (d / 2 ^ 63) in omega (arith, shifted, low)

-- is_digit_normalized holds exactly when the top bit of the digit is set.
pub is_digit_normalized_lem :
    (h : Heap) (nat ofs : ℕ)
    → IsHeap h
    → (is_digit_normalized h nat ofs ≡ true) ↔ (2 ^ 63 ≤ digit_val h nat ofs)
unfolding is_digit_normalized
is_digit_normalized_lem h nat ofs hs =
    let d = digit_val h nat ofs in
    let hd = digit_val-IsDigit h nat ofs hs in
    let top = top_bit d hd in (λ e. ground arith, λ p. ground arith)

-- is_digit_odd holds exactly when the digit is odd.
pub is_digit_odd_lem :
    (h : Heap) (nat ofs : ℕ) → (is_digit_odd h nat ofs ≡ true) ↔ (digit_val h nat ofs % 2 ≡ 1)
unfolding is_digit_odd
is_digit_odd_lem h nat ofs =
    let low = bit_and_mask 1 (digit_val h nat ofs) in (λ e. ground arith, λ p. ground arith)

-- compare_digits_nat is the order of the two digits as unsigned words.
pub compare_digits_nat_lem :
    (h : Heap) (nat1 ofs1 nat2 ofs2 : ℕ)
    → compare_digits_nat h nat1 ofs1 nat2 ofs2
      ≡ compare (digit_val h nat1 ofs1) (digit_val h nat2 ofs2)
unfolding compare_digits_nat
compare_digits_nat_lem h nat1 ofs1 nat2 ofs2 = ground arith
