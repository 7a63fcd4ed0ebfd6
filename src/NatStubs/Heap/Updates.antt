-- ===== src/NatStubs/Heap/Updates.antt =====
-- Reads of regions after writes: inside the region written, and outside of it.
use ppx_universe.Base.{
  ℕ, zero, suc, ◌+◌, ◌≤◌, ◌<◌, ◌≡◌, ◌≢◌, ◌⊎◌, inl, inr, refl, ap, ap₂, List, [], ◌∷◌, arith, length,
  get_or, take, drop, All-take, All-drop, length-take, length-drop, Bool-cases, ◌==◌,
}
use ppx_universe.Bng.Digit.{IsDigit}
use ppx_universe.Bng.Number.{IsNumber, get_or-IsDigit}
use ppx_universe.NatStubs.Heap.{
  Heap, IsHeap, digits_of, digit_val, region, write, InBounds, Outside, Disjoint, IsUpdate,
}
use ppx_universe.NatStubs.Heap.Regions.{
  get_or-set_same, get_or-set_other, length-set, All-set, digits_of-IsNumber, splice-IsNumber,
}
use ppx_universe.Base.Splice.{splice, length-splice, take-drop-splice, get_or-splice}

-- Two numbers are equal or not.
ℕ-cases : (m n : ℕ) → (m ≡ n) ⊎ (m ≢ n)
ℕ-cases m n = elim (Bool-cases (m == n)) [
  | inl e ↦ inl (ground arith)
  | inr e ↦ inr (λ q. ground arith)
]

pub length-region :
    (h : Heap) (nat ofs len : ℕ) → InBounds h nat ofs len → length (region h nat ofs len) ≡ len
unfolding region
length-region h nat ofs len (hn, hl) =
    let t = length-take len (drop ofs (digits_of h nat)) in
    let d = length-drop ofs (digits_of h nat) in omega (arith, t, d)

pub region-IsNumber : (h : Heap) (nat ofs len : ℕ) → IsHeap h → IsNumber (region h nat ofs len)
unfolding region
region-IsNumber h nat ofs len hs =
    All-take IsDigit len (drop ofs (digits_of h nat))
      (All-drop IsDigit ofs (digits_of h nat) (digits_of-IsNumber h nat hs))

pub digit_val-IsDigit : (h : Heap) (nat pos : ℕ) → IsHeap h → IsDigit (digit_val h nat pos)
unfolding digit_val
digit_val-IsDigit h nat pos hs = get_or-IsDigit pos (digits_of h nat) (digits_of-IsNumber h nat hs)

pub region-write :
    (h : Heap) (nat ofs : ℕ) (ds : List ℕ)
    → InBounds h nat ofs (length ds)
    → region (write h nat ofs ds) nat ofs (length ds) ≡ ds
unfolding region write
region-write h nat ofs ds (hn, hl) =
    rw (get_or-set_same h nat (splice (digits_of h nat) ofs ds) [] hn)
      (take-drop-splice (digits_of h nat) ofs ds hl)

write-frame :
    (h : Heap) (nat ofs : ℕ) (ds : List ℕ) (m pos : ℕ)
    → nat < length h
    → Outside nat ofs (length ds) m pos
    → digit_val (write h nat ofs ds) m pos ≡ digit_val h m pos
unfolding digit_val write
write-frame h nat ofs ds m pos hn (inl ne) =
    ap (λ (a : List ℕ). get_or a pos 0)
      (get_or-set_other h nat m (splice (digits_of h nat) ofs ds) [] ne)
write-frame h nat ofs ds m pos hn (inr out) = elim (ℕ-cases m nat) [
  | inl e ↦
      rw (e, get_or-set_same h nat (splice (digits_of h nat) ofs ds) [] hn)
        (get_or-splice (digits_of h nat) ofs ds pos out)
  | inr ne ↦
      ap (λ (a : List ℕ). get_or a pos 0)
        (get_or-set_other h nat m (splice (digits_of h nat) ofs ds) [] ne)
]

write-sizes :
    (h : Heap) (nat ofs : ℕ) (ds : List ℕ) (m : ℕ)
    → nat < length h
    → length (digits_of (write h nat ofs ds) m) ≡ length (digits_of h m)
unfolding write
write-sizes h nat ofs ds m hn = elim (ℕ-cases m nat) [
  | inl e ↦
      rw (e, get_or-set_same h nat (splice (digits_of h nat) ofs ds) [] hn)
        (length-splice (digits_of h nat) ofs ds)
  | inr ne ↦
      ap (λ (a : List ℕ). length a)
        (get_or-set_other h nat m (splice (digits_of h nat) ofs ds) [] ne)
]

write-count : (h : Heap) (nat ofs : ℕ) (ds : List ℕ) → length (write h nat ofs ds) ≡ length h
unfolding write
write-count h nat ofs ds = length-set h nat (splice (digits_of h nat) ofs ds)

write-IsHeap :
    (h : Heap) (nat ofs : ℕ) (ds : List ℕ) → IsHeap h → IsNumber ds → IsHeap (write h nat ofs ds)
unfolding write
write-IsHeap h nat ofs ds hs hd =
    All-set IsNumber h nat (splice (digits_of h nat) ofs ds) hs
      (splice-IsNumber (digits_of h nat) ofs ds (digits_of-IsNumber h nat hs) hd)

pub write-IsUpdate :
    (h : Heap) (nat ofs : ℕ) (ds : List ℕ)
    → IsHeap h
    → nat < length h
    → IsNumber ds
    → IsUpdate h nat ofs (length ds) (write h nat ofs ds)
write-IsUpdate h nat ofs ds hs hn hd = record {
  frame = λ m pos out. write-frame h nat ofs ds m pos hn out;
  sizes = λ m. write-sizes h nat ofs ds m hn;
  count = write-count h nat ofs ds;
  digits = write-IsHeap h nat ofs ds hs hd;
}

-- Two lists of one length that agree in a region.
take-drop-ext :
    (a b : List ℕ) (p k : ℕ)
    → length a ≡ length b
    → ((i : ℕ) → p ≤ i → i < p + k → get_or a i 0 ≡ get_or b i 0)
    → take k (drop p a) ≡ take k (drop p b)
take-drop-ext a b zero zero l e = refl
take-drop-ext [] [] zero (suc k) l e = refl
take-drop-ext [] (y ∷ b) zero (suc k) l e = absurd (omega arith)
take-drop-ext (x ∷ a) [] zero (suc k) l e = absurd (omega arith)
take-drop-ext (x ∷ a) (y ∷ b) zero (suc k) l e =
    ap₂ ◌∷◌ (e 0 (omega arith) (omega arith))
      (take-drop-ext a b 0 k (omega arith) (λ i lo hi. e (suc i) (omega arith) (omega arith)))
take-drop-ext [] [] (suc p) k l e = refl
take-drop-ext [] (y ∷ b) (suc p) k l e = absurd (omega arith)
take-drop-ext (x ∷ a) [] (suc p) k l e = absurd (omega arith)
take-drop-ext (x ∷ a) (y ∷ b) (suc p) k l e =
    take-drop-ext a b p k (omega arith) (λ i lo hi. e (suc i) (omega arith) (omega arith))

place-Outside :
    (nat ofs len m pos k i : ℕ)
    → Disjoint nat ofs len m pos k
    → pos ≤ i
    → i < pos + k
    → Outside nat ofs len m i
place-Outside nat ofs len m pos k i (inl ne) lo hi = inl ne
place-Outside nat ofs len m pos k i (inr (inl below)) lo hi = inr (inl (omega arith))
place-Outside nat ofs len m pos k i (inr (inr above)) lo hi = inr (inr (omega arith))

pub region-frame :
    (h h' : Heap) (nat ofs len m pos k : ℕ)
    → IsUpdate h nat ofs len h'
    → Disjoint nat ofs len m pos k
    → region h' m pos k ≡ region h m pos k
unfolding region digit_val
region-frame h h' nat ofs len m pos k u apart =
    take-drop-ext (digits_of h' m) (digits_of h m) pos k (u.sizes m)
      (λ i lo hi. u.frame m i (place-Outside nat ofs len m pos k i apart lo hi))
