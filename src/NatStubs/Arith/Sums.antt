-- ===== src/NatStubs/Arith/Sums.antt =====
-- Sums, differences and their carries between OCaml and C.
use Prim.Native.Nat.{bit_xor}
use native.Mathlib.Nat.{lt_of_mul-lt-mul_left}
use ppx_universe.Base.{ℕ, zero, suc, ◌+◌, ◌-◌, ◌*◌, ◌%◌, ◌^◌, ◌≤◌, ◌<◌, ◌≡◌, refl, arith}
use ppx_universe.Bng.Number.{
  value, base_pow, base_pow-pos, base_pow-le, Carried, IsTotal, IsDifference, carry-le,
  value-lt-base_pow,
}
use ppx_universe.Bng.Add.Exact.{bng_add_carry_lem, bng_add_lem, bng_sub_carry_lem, bng_sub_lem}
use ppx_universe.Bng.Mult.{to_carry}
use ppx_universe.Mlvalues.{long_val, val_long}
use ppx_universe.NatStubs.Heap.{Heap, IsHeap, region, InBounds, DisjointOrSame, IsUpdate}
use ppx_universe.NatStubs.Heap.Updates.{length-region, region-IsNumber}
use ppx_universe.NatStubs.Heap.Several.{write-IsWritten}
use ppx_universe.NatStubs.Arith.{
  Returned, return_carry, return_borrow, incr_nat, add_nat, decr_nat, sub_nat,
}

-- The region and the result hold the number `n`, and nothing else changes.
pub record IsSum (h : Heap) (nat ofs len n : ℕ) (r : Returned) : Type 0 where
  pub total : value (region r.heap nat ofs len) + base_pow len * r.result ≡ n
  pub update : IsUpdate h nat ofs len r.heap

-- The region holds the difference `x - y`; the result is 1 where nothing is borrowed, 0 otherwise.
pub record IsLess (h : Heap) (nat ofs len x y : ℕ) (r : Returned) : Type 0 where
  pub total : value (region r.heap nat ofs len) + y ≡ x + base_pow len * (1 - r.result)
  pub flag : r.result ≤ 1
  pub update : IsUpdate h nat ofs len r.heap

-- A carry below 2 ^ 63 is returned as it is.
pub return_carry_lem :
    (h : Heap) (nat ofs len n : ℕ) {r : Carried}
    → IsHeap h
    → InBounds h nat ofs len
    → IsTotal n len r
    → r.carry < 2 ^ 63
    → IsSum h nat ofs len n (return_carry h nat ofs r)
unfolding val_long
return_carry_lem h nat ofs len n {r} hs hin t small =
    let w = write-IsWritten h nat ofs len r.digits hs hin t.digits t.same_length in
    let kept : r.carry % 2 ^ 63 ≡ r.carry = omega arith in
    record { total = rw (w.now, kept) t.total; update = w.update }

-- A borrow is at most 1.
borrow-le :
    (x y len : ℕ) {r : Carried}
    → IsDifference x y len r
    → x < base_pow len
    → y ≤ base_pow len
    → r.carry ≤ 1
borrow-le x y len {r} t hx hy =
    let top = value-lt-base_pow r.digits t.digits in
    let bound : value r.digits < base_pow len = rw t.same_length at top in
    let less =
      lt_of_mul-lt-mul_left (base_pow len) {m = r.carry} {n = 2} (omega (arith, t.total)) in
    omega arith

-- `1 ^ c` for a carry.
bit_xor_one : (c : ℕ) → c ≤ 1 → bit_xor 1 c ≡ 1 - c
bit_xor_one zero hc = refl
bit_xor_one (suc zero) hc = refl
bit_xor_one (suc (suc c)) hc = absurd (omega arith)

return_borrow_lem :
    (h : Heap) (nat ofs len x y : ℕ) {r : Carried}
    → IsHeap h
    → InBounds h nat ofs len
    → IsDifference x y len r
    → x < base_pow len
    → y ≤ base_pow len
    → IsLess h nat ofs len x y (return_borrow h nat ofs r)
unfolding val_long
return_borrow_lem h nat ofs len x y {r} hs hin t hx hy =
    let w = write-IsWritten h nat ofs len r.digits hs hin t.digits t.same_length in
    let small = borrow-le x y len t hx hy in
    let flipped : bit_xor 1 r.carry ≡ 1 - r.carry = bit_xor_one r.carry small in
    record {
      total = rw (w.now, flipped) (ground (arith, t.total));
      flag = rw flipped (omega arith);
      update = w.update;
    }

-- A carry of 0 or 1 reaches the operation as it is, and a borrow turned round.
carry_argument : (c : ℕ) → c ≤ 1 → to_carry (long_val c) ≡ c
unfolding long_val
carry_argument zero hc = refl
carry_argument (suc zero) hc = refl
carry_argument (suc (suc c)) hc = absurd (omega arith)

borrow_argument : (c : ℕ) → c ≤ 1 → to_carry (bit_xor 1 (long_val c)) ≡ 1 - c
unfolding long_val
borrow_argument zero hc = refl
borrow_argument (suc zero) hc = refl
borrow_argument (suc (suc c)) hc = absurd (omega arith)

pub region-lt-base_pow :
    (h : Heap) (nat ofs len : ℕ)
    → IsHeap h
    → InBounds h nat ofs len
    → value (region h nat ofs len) < base_pow len
region-lt-base_pow h nat ofs len hs hin =
    rw (length-region h nat ofs len hin) at
      (value-lt-base_pow (region h nat ofs len) (region-IsNumber h nat ofs len hs))

-- For a region in bounds and a carry of 0 or 1, incr_nat leaves in the region and in its result the exact
-- sum, and changes no other digit of any nat.
pub incr_nat_lem :
    (h : Heap) (nat ofs len c : ℕ)
    → IsHeap h
    → InBounds h nat ofs len
    → c ≤ 1
    → IsSum h nat ofs len (value (region h nat ofs len) + c) (incr_nat h nat ofs len c)
unfolding incr_nat
incr_nat_lem h nat ofs len c hs hin hc =
    let exact = bng_add_carry_lem (region h nat ofs len) c (region-IsNumber h nat ofs len hs) hc in
    let t = rw (length-region h nat ofs len hin) at exact in
    let bound = region-lt-base_pow h nat ofs len hs hin in
    let small = carry-le 1 (value (region h nat ofs len) + c) len t (omega arith) in
    rw (carry_argument c hc)
      (return_carry_lem h nat ofs len (value (region h nat ofs len) + c) hs hin t (omega arith))

-- For regions in bounds that are disjoint or start at one digit, the second not longer than the
-- first, and a carry of 0 or 1, add_nat leaves in the first region and in its result the exact sum
-- of both and the carry, and changes no other digit of any nat.
pub add_nat_lem :
    (h : Heap) (nat1 ofs1 len1 nat2 ofs2 len2 c : ℕ)
    → IsHeap h
    → InBounds h nat1 ofs1 len1
    → InBounds h nat2 ofs2 len2
    → DisjointOrSame nat1 ofs1 len1 nat2 ofs2 len2
    → len2 ≤ len1
    → c ≤ 1
    → IsSum h nat1 ofs1 len1
        (value (region h nat1 ofs1 len1) + value (region h nat2 ofs2 len2) + c)
        (add_nat h nat1 ofs1 len1 nat2 ofs2 len2 c)
unfolding add_nat
add_nat_lem h nat1 ofs1 len1 nat2 ofs2 len2 c hs in1 in2 apart hl hc =
    let a = region h nat1 ofs1 len1 in
    let b = region h nat2 ofs2 len2 in
    let la = length-region h nat1 ofs1 len1 in1 in
    let lb = length-region h nat2 ofs2 len2 in2 in
    let t = rw la at (
      bng_add_lem a b c (region-IsNumber h nat1 ofs1 len1 hs) (region-IsNumber h nat2 ofs2 len2 hs)
        (omega (arith, la, lb)) hc) in
    let bound1 = region-lt-base_pow h nat1 ofs1 len1 hs in1 in
    let bound2 = region-lt-base_pow h nat2 ofs2 len2 hs in2 in
    let wider = base_pow-le len2 len1 hl in
    let small = carry-le 1 (value a + value b + c) len1 t (omega arith) in
    rw (carry_argument c hc)
      (return_carry_lem h nat1 ofs1 len1 (value a + value b + c) hs in1 t (omega arith))

-- For a region in bounds and a carry of 0 or 1, where 0 stands for a borrow, decr_nat subtracts the
-- borrow; its result is 0 where that borrows and 1 otherwise, and no other digit of any nat changes.
pub decr_nat_lem :
    (h : Heap) (nat ofs len c : ℕ)
    → IsHeap h
    → InBounds h nat ofs len
    → c ≤ 1
    → IsLess h nat ofs len (value (region h nat ofs len)) (1 - c) (decr_nat h nat ofs len c)
unfolding decr_nat
decr_nat_lem h nat ofs len c hs hin hc =
    let exact =
      bng_sub_carry_lem (region h nat ofs len) (1 - c) (region-IsNumber h nat ofs len hs)
        (omega arith) in
    let t = rw (length-region h nat ofs len hin) at exact in
    let bound = region-lt-base_pow h nat ofs len hs hin in
    rw (borrow_argument c hc) (
      return_borrow_lem h nat ofs len (value (region h nat ofs len)) (1 - c) hs hin t bound
        (omega (arith, base_pow-pos len)))

-- For regions in bounds that are disjoint or start at one digit, the second not longer than the
-- first, and a carry of 0 or 1 where 0 stands for a borrow, sub_nat leaves in the first region the
-- difference, less one where the carry is 0; its result is 0 where that borrows and 1 otherwise,
-- and it changes no other digit of any nat.
pub sub_nat_lem :
    (h : Heap) (nat1 ofs1 len1 nat2 ofs2 len2 c : ℕ)
    → IsHeap h
    → InBounds h nat1 ofs1 len1
    → InBounds h nat2 ofs2 len2
    → DisjointOrSame nat1 ofs1 len1 nat2 ofs2 len2
    → len2 ≤ len1
    → c ≤ 1
    → IsLess h nat1 ofs1 len1
        (value (region h nat1 ofs1 len1))
        (value (region h nat2 ofs2 len2) + (1 - c))
        (sub_nat h nat1 ofs1 len1 nat2 ofs2 len2 c)
unfolding sub_nat
sub_nat_lem h nat1 ofs1 len1 nat2 ofs2 len2 c hs in1 in2 apart hl hc =
    let a = region h nat1 ofs1 len1 in
    let b = region h nat2 ofs2 len2 in
    let la = length-region h nat1 ofs1 len1 in1 in
    let lb = length-region h nat2 ofs2 len2 in2 in
    let t = rw la at (
      bng_sub_lem a b (1 - c) (region-IsNumber h nat1 ofs1 len1 hs)
        (region-IsNumber h nat2 ofs2 len2 hs) (omega (arith, la, lb)) (omega arith)) in
    let bound1 = region-lt-base_pow h nat1 ofs1 len1 hs in1 in
    let bound2 = region-lt-base_pow h nat2 ofs2 len2 hs in2 in
    let wider = base_pow-le len2 len1 hl in
    rw (borrow_argument c hc) (
      return_borrow_lem h nat1 ofs1 len1 (value a) (value b + (1 - c)) hs in1 t bound1
        (omega arith))
