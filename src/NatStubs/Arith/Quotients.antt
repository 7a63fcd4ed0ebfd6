-- ===== src/NatStubs/Arith/Quotients.antt =====
-- Divisions and comparison of regions.
use Prim.Native.Nat.{compare}
use ppx_universe.Base.{ℕ, ◌-◌, ◌<◌, ◌≡◌, ap, ◌∙◌, List, [], ◌∷◌, arith, length, get_or}
use ppx_universe.Bng.Number.{value}
use ppx_universe.Bng.Compare.Order.{bng_compare_lem}
use ppx_universe.Bng.DivRem.{bng_div_rem_digit, bng_div_rem}
use ppx_universe.Bng.DivRem.ByDigit.{IsDigitDivision, bng_div_rem_digit_lem}
use ppx_universe.Bng.DivRem.Exact.{IsDivRem, bng_div_rem_lem}
use ppx_universe.NatStubs.Heap.{
  Heap, IsHeap, digits_of, digit_val, region, write, set_digit_val, InBounds, Outside, Disjoint,
}
use ppx_universe.NatStubs.Heap.Updates.{
  length-region, region-IsNumber, digit_val-IsDigit, region-frame,
}
use ppx_universe.NatStubs.Heap.Several.{write-IsWritten, two_writes, digit_val-region}
use ppx_universe.NatStubs.Arith.{div_digit_nat, div_nat, compare_nat}

-- compare_nat of two regions is the order of their numbers.
pub compare_nat_lem :
    (h : Heap) (nat1 ofs1 len1 nat2 ofs2 len2 : ℕ)
    → IsHeap h
    → compare_nat h nat1 ofs1 len1 nat2 ofs2 len2
      ≡ compare (value (region h nat1 ofs1 len1)) (value (region h nat2 ofs2 len2))
unfolding compare_nat
compare_nat_lem h nat1 ofs1 len1 nat2 ofs2 len2 hs =
    bng_compare_lem (region h nat1 ofs1 len1) (region h nat2 ofs2 len2)
      (region-IsNumber h nat1 ofs1 len1 hs) (region-IsNumber h nat2 ofs2 len2 hs)

-- The numerator's region holds the remainder and the quotient, the divisor's region is as it was,
-- and nothing else changed.
pub record IsDivNat (h : Heap) (nat1 ofs1 len1 nat2 ofs2 len2 : ℕ) (h' : Heap) : Type 0 where
  pub division :
      IsDivRem
        (region h nat1 ofs1 len1)
        (region h nat2 ofs2 len2)
        (record { n = region h' nat1 ofs1 len1; d = region h' nat2 ofs2 len2 })
  pub frame :
      (m pos : ℕ)
      → Outside nat2 ofs2 len2 m pos
      → Outside nat1 ofs1 len1 m pos
      → digit_val h' m pos ≡ digit_val h m pos
  pub sizes : (m : ℕ) → length (digits_of h' m) ≡ length (digits_of h m)
  pub digits : IsHeap h'

-- For two disjoint regions in bounds, a divisor of at least one digit and a longer numerator whose
-- top digit is below the divisor's, div_nat leaves in the numerator's region the exact remainder
-- and above it the exact quotient, in the divisor's region what was there, and no other digit of
-- any nat changed.
pub div_nat_lem :
    (h : Heap) (nat1 ofs1 len1 nat2 ofs2 len2 : ℕ)
    → IsHeap h
    → InBounds h nat1 ofs1 len1
    → InBounds h nat2 ofs2 len2
    → Disjoint nat1 ofs1 len1 nat2 ofs2 len2
    → 0 < len2
    → len2 < len1
    → get_or (region h nat1 ofs1 len1) (len1 - 1) 0 < get_or (region h nat2 ofs2 len2) (len2 - 1) 0
    → IsDivNat h nat1 ofs1 len1 nat2 ofs2 len2 (div_nat h nat1 ofs1 len1 nat2 ofs2 len2)
unfolding div_nat
div_nat_lem h nat1 ofs1 len1 nat2 ofs2 len2 hs in1 in2 apart pos longer top =
    let n = region h nat1 ofs1 len1 in
    let d = region h nat2 ofs2 len2 in
    let ln = length-region h nat1 ofs1 len1 in1 in
    let ld = length-region h nat2 ofs2 len2 in2 in
    let hd = region-IsNumber h nat2 ofs2 len2 hs in
    let r = bng_div_rem n d in
    let exact =
      bng_div_rem_lem n d (region-IsNumber h nat1 ofs1 len1 hs) hd (omega (arith, ld))
        (omega (arith, ln, ld)) (rw (ln, ld) top) in
    let w =
      two_writes h nat2 ofs2 len2 r.d nat1 ofs1 len1 r.n hs in2 in1 apart (rw exact.restored hd)
        exact.digits (ap (λ (l : List ℕ). length l) exact.restored ∙ ld) (exact.same_length ∙ ln) in
    record {
      division = rw (w.first, w.second) exact;
      frame = w.frame;
      sizes = w.sizes;
      digits = w.digits;
    }

-- The quotient and the remainder are where they were asked for; the numerator is as it was.
pub record IsDivDigitNat (h : Heap) (natq ofsq natr ofsr nat1 ofs1 len1 d : ℕ) (h' : Heap)
    : Type 0 where
  pub division : IsDigitDivision (region h nat1 ofs1 len1) d (record {
    quotient = region h' natq ofsq (len1 - 1);
    numerator = region h' nat1 ofs1 len1;
    rem = digit_val h' natr ofsr;
  })
  pub frame :
      (m pos : ℕ)
      → Outside nat1 ofs1 len1 m pos
      → Outside natq ofsq (len1 - 1) m pos
      → Outside natr ofsr 1 m pos
      → digit_val h' m pos ≡ digit_val h m pos
  pub sizes : (m : ℕ) → length (digits_of h' m) ≡ length (digits_of h m)
  pub digits : IsHeap h'

-- For disjoint regions in bounds and a divisor digit above the top digit of a non-empty numerator,
-- div_digit_nat stores the exact quotient and the exact remainder where they were asked for,
-- leaves the numerator as it was, and changes no other digit of any nat.
pub div_digit_nat_lem :
    (h : Heap) (natq ofsq natr ofsr nat1 ofs1 len1 nat2 ofs2 : ℕ)
    → IsHeap h
    → InBounds h natq ofsq (len1 - 1)
    → InBounds h natr ofsr 1
    → InBounds h nat1 ofs1 len1
    → Disjoint natq ofsq (len1 - 1) nat1 ofs1 len1
    → Disjoint natr ofsr 1 nat1 ofs1 len1
    → Disjoint natr ofsr 1 natq ofsq (len1 - 1)
    → 0 < len1
    → get_or (region h nat1 ofs1 len1) (len1 - 1) 0 < digit_val h nat2 ofs2
    → IsDivDigitNat h natq ofsq natr ofsr nat1 ofs1 len1
        (digit_val h nat2 ofs2)
        (div_digit_nat h natq ofsq natr ofsr nat1 ofs1 len1 nat2 ofs2)
unfolding div_digit_nat set_digit_val
div_digit_nat_lem h natq ofsq natr ofsr nat1 ofs1 len1 nat2 ofs2 hs in_q in_r in1 q1 r1 rq pos top =
    let b = region h nat1 ofs1 len1 in
    let d = digit_val h nat2 ofs2 in
    let hd = digit_val-IsDigit h nat2 ofs2 hs in
    let lb = length-region h nat1 ofs1 len1 in1 in
    let hb = region-IsNumber h nat1 ofs1 len1 hs in
    let r = bng_div_rem_digit b d in
    let exact = bng_div_rem_digit_lem b d hb hd (omega (arith, lb)) (rw lb top) in
    let w =
      two_writes h nat1 ofs1 len1 r.numerator natq ofsq (len1 - 1) r.quotient hs in1 in_q q1
        (rw exact.restored hb) exact.digits (ap (λ (l : List ℕ). length l) exact.restored ∙ lb)
        (exact.same_length ∙ ap (λ (n : ℕ). n - 1) lb) in
    let h2 = write (write h nat1 ofs1 r.numerator) natq ofsq r.quotient in
    let h3 = write h2 natr ofsr (r.rem ∷ []) in
    let in_r2 : InBounds h2 natr ofsr 1 =
      (omega (arith, w.count, in_r.0), omega (arith, w.sizes natr, in_r.1)) in
    let last =
      write-IsWritten h2 natr ofsr 1 (r.rem ∷ []) w.digits in_r2 (omega (arith, exact.below), tt)
        (omega arith) in
    let quotient = region-frame h2 h3 natr ofsr 1 natq ofsq (len1 - 1) last.update rq ∙ w.second in
    let numerator = region-frame h2 h3 natr ofsr 1 nat1 ofs1 len1 last.update r1 ∙ w.first in
    let rem = digit_val-region h3 natr ofsr r.rem last.now in
    record {
      division = rw (quotient, numerator, rem) exact;
      frame = λ m p out1 outq outr. last.update.frame m p outr ∙ w.frame m p out1 outq;
      sizes = λ m. last.update.sizes m ∙ w.sizes m;
      digits = last.update.digits;
    }
