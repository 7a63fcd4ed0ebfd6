-- ===== src/NatStubs/Heap/Several.antt =====
-- Writes into two regions that share no digit.
use ppx_universe.Base.{
  ℕ, zero, suc, ◌≡◌, sym, ap, ◌∙◌, List, [], ◌∷◌, arith, length, take, drop, get_or,
}
use ppx_universe.Bng.Number.{IsNumber}
use ppx_universe.NatStubs.Heap.{
  Heap, IsHeap, digits_of, digit_val, region, write, InBounds, Outside, Disjoint, IsUpdate,
}
use ppx_universe.NatStubs.Heap.Updates.{region-write, write-IsUpdate, region-frame}

-- The digits `ds` of a region, and nothing else changed.
pub record IsWritten (h : Heap) (nat ofs len : ℕ) (ds : List ℕ) (h' : Heap) : Type 0 where
  pub now : region h' nat ofs len ≡ ds
  pub update : IsUpdate h nat ofs len h'

pub write-IsWritten :
    (h : Heap) (nat ofs len : ℕ) (ds : List ℕ)
    → IsHeap h
    → InBounds h nat ofs len
    → IsNumber ds
    → length ds ≡ len
    → IsWritten h nat ofs len ds (write h nat ofs ds)
write-IsWritten h nat ofs len ds hs (hn, hl) hd e = rw (sym e) (record {
  now = region-write h nat ofs ds (hn, omega arith);
  update = write-IsUpdate h nat ofs ds hs hn hd;
})

pub InBounds-update :
    {h h' : Heap} {m pos k : ℕ} (nat ofs len : ℕ)
    → IsUpdate h m pos k h'
    → InBounds h nat ofs len
    → InBounds h' nat ofs len
InBounds-update nat ofs len u (hn, hl) = (omega (arith, u.count), omega (arith, u.sizes nat))

-- Two regions hold what was written, and nothing else changed.
pub record IsWrittenTwice (h : Heap) (nat1 ofs1 len1 : ℕ) (ds1 : List ℕ) (nat2 ofs2 len2 : ℕ)
    (ds2 : List ℕ) (h' : Heap) : Type 0 where
  pub first : region h' nat1 ofs1 len1 ≡ ds1
  pub second : region h' nat2 ofs2 len2 ≡ ds2
  pub frame :
      (m pos : ℕ)
      → Outside nat1 ofs1 len1 m pos
      → Outside nat2 ofs2 len2 m pos
      → digit_val h' m pos ≡ digit_val h m pos
  pub sizes : (m : ℕ) → length (digits_of h' m) ≡ length (digits_of h m)
  pub count : length h' ≡ length h
  pub digits : IsHeap h'

pub two_writes :
    (h : Heap) (nat1 ofs1 len1 : ℕ) (ds1 : List ℕ) (nat2 ofs2 len2 : ℕ) (ds2 : List ℕ)
    → IsHeap h
    → InBounds h nat1 ofs1 len1
    → InBounds h nat2 ofs2 len2
    → Disjoint nat2 ofs2 len2 nat1 ofs1 len1
    → IsNumber ds1
    → IsNumber ds2
    → length ds1 ≡ len1
    → length ds2 ≡ len2
    → IsWrittenTwice h nat1 ofs1 len1 ds1 nat2 ofs2 len2 ds2
        (write (write h nat1 ofs1 ds1) nat2 ofs2 ds2)
two_writes h nat1 ofs1 len1 ds1 nat2 ofs2 len2 ds2 hs in1 in2 apart hd1 hd2 e1 e2 =
    let h1 = write h nat1 ofs1 ds1 in
    let w1 = write-IsWritten h nat1 ofs1 len1 ds1 hs in1 hd1 e1 in
    let in2' = InBounds-update nat2 ofs2 len2 w1.update in2 in
    let w2 = write-IsWritten h1 nat2 ofs2 len2 ds2 w1.update.digits in2' hd2 e2 in
    let h2 = write h1 nat2 ofs2 ds2 in
    record {
      first = region-frame h1 h2 nat2 ofs2 len2 nat1 ofs1 len1 w2.update apart ∙ w1.now;
      second = w2.now;
      frame = λ m pos out1 out2. w2.update.frame m pos out2 ∙ w1.update.frame m pos out1;
      sizes = λ m. w2.update.sizes m ∙ w1.update.sizes m;
      count = w2.update.count ∙ w1.update.count;
      digits = w2.update.digits;
    }

first_digit : (a : List ℕ) (pos d : ℕ) → take 1 (drop pos a) ≡ d ∷ [] → get_or a pos 0 ≡ d
first_digit [] zero d e = absurd (omega (arith, ap (λ (l : List ℕ). length l) e))
first_digit [] (suc pos) d e = absurd (omega (arith, ap (λ (l : List ℕ). length l) e))
first_digit (x ∷ a) zero d e = ap (λ (l : List ℕ). get_or l 0 0) e
first_digit (x ∷ a) (suc pos) d e = first_digit a pos d e

-- A region of one digit.
pub digit_val-region :
    (h : Heap) (nat pos d : ℕ) → region h nat pos 1 ≡ d ∷ [] → digit_val h nat pos ≡ d
unfolding region digit_val
digit_val-region h nat pos d e = first_digit (digits_of h nat) pos d e
