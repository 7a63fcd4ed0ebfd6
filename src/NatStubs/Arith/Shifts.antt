-- ===== src/NatStubs/Arith/Shifts.antt =====
-- Shifts of a region, with the digit that falls out written to another place, and the complement.
use native.Mathlib.Nat.{mul-le-mul_right, mul-le-mul_left, mod-lt}
use ppx_universe.Base.{
  ℕ, suc, ◌+◌, ◌-◌, ◌*◌, ◌/◌, ◌%◌, ◌^◌, ◌<◌, ◌≡◌, sym, ap, ◌∙◌, List, [], ◌∷◌, arith, length,
}
use ppx_universe.Bits.{two_pow-pos}
use ppx_universe.Bng.Digit.{IsDigit}
use ppx_universe.Bng.Number.{IsNumber, value, base_pow, value-lt-base_pow}
use ppx_universe.Bng.Add.{bng_complement}
use ppx_universe.Bng.Add.Exact.{bng_complement_lem}
use ppx_universe.Bng.Shift.{bng_shift_left, bng_shift_right}
use ppx_universe.Bng.Shift.Exact.{powers, quotient_unique, bng_shift_left_lem, bng_shift_right_lem}
use ppx_universe.NatStubs.Heap.{
  Heap, IsHeap, digits_of, digit_val, region, write, set_digit_val, InBounds, Outside, Disjoint,
  IsUpdate,
}
use ppx_universe.NatStubs.Heap.Updates.{length-region, region-IsNumber}
use ppx_universe.NatStubs.Heap.Several.{write-IsWritten, two_writes, digit_val-region}
use ppx_universe.NatStubs.Arith.{shift_left_nat, shift_right_nat, complement_nat}

-- What a shift leaves: the number `v` in the region, `d` in a digit elsewhere, and all else as it was.
pub record IsShifted (h : Heap) (nat1 ofs1 len1 nat2 ofs2 v d : ℕ) (h' : Heap) : Type 0 where
  pub now : value (region h' nat1 ofs1 len1) ≡ v
  pub out : digit_val h' nat2 ofs2 ≡ d
  pub frame :
      (m pos : ℕ)
      → Outside nat1 ofs1 len1 m pos
      → Outside nat2 ofs2 1 m pos
      → digit_val h' m pos ≡ digit_val h m pos
  pub sizes : (m : ℕ) → length (digits_of h' m) ≡ length (digits_of h m)
  pub digits : IsHeap h'

-- A region and a digit elsewhere, written.
region_and_digit :
    (h : Heap) (nat1 ofs1 len1 nat2 ofs2 : ℕ) (ds : List ℕ) (d : ℕ)
    → IsHeap h
    → InBounds h nat1 ofs1 len1
    → InBounds h nat2 ofs2 1
    → Disjoint nat2 ofs2 1 nat1 ofs1 len1
    → IsNumber ds
    → IsDigit d
    → length ds ≡ len1
    → IsShifted h nat1 ofs1 len1 nat2 ofs2
        (value ds)
        d
        (set_digit_val (write h nat1 ofs1 ds) nat2 ofs2 d)
unfolding set_digit_val
region_and_digit h nat1 ofs1 len1 nat2 ofs2 ds d hs in1 in2 apart hds hd e =
    let w =
      two_writes h nat1 ofs1 len1 ds nat2 ofs2 1 (d ∷ []) hs in1 in2 apart hds (hd, tt) e
        (omega arith) in
    record {
      now = ap value w.first;
      out = digit_val-region (write (write h nat1 ofs1 ds) nat2 ofs2 (d ∷ [])) nat2 ofs2 d w.second;
      frame = w.frame;
      sizes = w.sizes;
      digits = w.digits;
    }

below_base : (s d : ℕ) → s < 64 → d < 2 ^ s → IsDigit d
below_base s d hs h = omega (
  arith,
  powers s (omega arith),
  mul-le-mul_right {m = suc d} {n = 2 ^ s} (2 ^ (64 - s)) h,
  mul-le-mul_left {m = 1} {n = 2 ^ (64 - s)} (suc d) (two_pow-pos (64 - s)),
)

-- For a shift below 64 and a digit outside the region, shift_left_nat leaves in the region the low
-- digits of its number times 2 ^ shift and in the digit the part that falls out, and changes no
-- other digit of any nat.
pub shift_left_nat_lem :
    (h : Heap) (nat1 ofs1 len1 nat2 ofs2 nbits : ℕ)
    → IsHeap h
    → InBounds h nat1 ofs1 len1
    → InBounds h nat2 ofs2 1
    → Disjoint nat2 ofs2 1 nat1 ofs1 len1
    → nbits < 64
    → let v = value (region h nat1 ofs1 len1) * 2 ^ nbits in
      IsShifted h nat1 ofs1 len1 nat2 ofs2
        (v % base_pow len1)
        (v / base_pow len1)
        (shift_left_nat h nat1 ofs1 len1 nat2 ofs2 nbits)
unfolding shift_left_nat
shift_left_nat_lem h nat1 ofs1 len1 nat2 ofs2 nbits hs in1 in2 apart few =
    let a = region h nat1 ofs1 len1 in
    let r = bng_shift_left a nbits in
    let (t, out) = bng_shift_left_lem a nbits (region-IsNumber h nat1 ofs1 len1 hs) few in
    let la = length-region h nat1 ofs1 len1 in1 in
    let w =
      region_and_digit h nat1 ofs1 len1 nat2 ofs2 r.digits r.carry hs in1 in2 apart t.digits
        (below_base nbits r.carry few out) (t.same_length ∙ la) in
    let (carry, low) =
      quotient_unique (value a * 2 ^ nbits) (base_pow len1) r.carry (value r.digits)
        (omega (arith, rw la at t.total))
        (rw (t.same_length ∙ la) at (value-lt-base_pow r.digits t.digits)) in
    rw (sym carry, sym low) w

-- For a shift below 64 and a digit outside the region, shift_right_nat leaves in the region its
-- number divided by 2 ^ shift and in the digit the remainder at the top of a word, and changes no
-- other digit of any nat.
pub shift_right_nat_lem :
    (h : Heap) (nat1 ofs1 len1 nat2 ofs2 nbits : ℕ)
    → IsHeap h
    → InBounds h nat1 ofs1 len1
    → InBounds h nat2 ofs2 1
    → Disjoint nat2 ofs2 1 nat1 ofs1 len1
    → nbits < 64
    → let v = value (region h nat1 ofs1 len1) in
      IsShifted h nat1 ofs1 len1 nat2 ofs2
        (v / 2 ^ nbits)
        (v % 2 ^ nbits * 2 ^ (64 - nbits))
        (shift_right_nat h nat1 ofs1 len1 nat2 ofs2 nbits)
unfolding shift_right_nat
shift_right_nat_lem h nat1 ofs1 len1 nat2 ofs2 nbits hs in1 in2 apart few =
    let a = region h nat1 ofs1 len1 in
    let r = bng_shift_right a nbits in
    let (now, out, digits, same) =
      bng_shift_right_lem a nbits (region-IsNumber h nat1 ofs1 len1 hs) few in
    let la = length-region h nat1 ofs1 len1 in1 in
    let fits : IsDigit r.carry = omega (
      arith,
      out,
      powers nbits (omega arith),
      two_pow-pos (64 - nbits),
      mul-le-mul_right {m = suc (value a % 2 ^ nbits)} {n = 2 ^ nbits} (2 ^ (64 - nbits))
          (mod-lt (value a) (two_pow-pos nbits)),
    ) in
    let w =
      region_and_digit h nat1 ofs1 len1 nat2 ofs2 r.digits r.carry hs in1 in2 apart digits fits
        (same ∙ la) in
    rw (sym now, sym out) w

-- For a region in bounds, complement_nat subtracts its number from the largest one of its length, and
-- changes no other digit of any nat.
pub complement_nat_lem :
    (h : Heap) (nat ofs len : ℕ)
    → IsHeap h
    → InBounds h nat ofs len
    → (value (region (complement_nat h nat ofs len) nat ofs len) + value (region h nat ofs len) + 1
        ≡ base_pow len)
      × IsUpdate h nat ofs len (complement_nat h nat ofs len)
unfolding complement_nat
complement_nat_lem h nat ofs len hs hin =
    let la = length-region h nat ofs len hin in
    let (total, digits, same) =
      bng_complement_lem (region h nat ofs len) (region-IsNumber h nat ofs len hs) in
    let w =
      write-IsWritten h nat ofs len (bng_complement (region h nat ofs len)) hs hin digits
        (same ∙ la) in
    (rw w.now (rw la at total), w.update)
