-- ===== src/NatStubs/Access/Moves.antt =====
-- Making nats and moving their digits.
use ppx_universe.Base.{
  ℕ, zero, suc, ◌≤◌, ◌<◌, ◌≡◌, refl, ap, ◌∙◌, List, [], ◌∷◌, ◌++◌, arith, length, get_or,
  All-append,
}
use ppx_universe.Bng.Number.{IsNumber, value}
use ppx_universe.NatStubs.Heap.{Heap, IsHeap, digits_of, region, InBounds, IsUpdate}
use ppx_universe.NatStubs.Heap.Updates.{length-region, region-IsNumber}
use ppx_universe.NatStubs.Heap.Several.{write-IsWritten}
use ppx_universe.NatStubs.Access.{garbage, create_nat, length_nat, zeros, set_to_zero_nat, blit_nat}

length-garbage : (found : ℕ → ℕ) (size : ℕ) → length (garbage found size) ≡ size
unfolding garbage
length-garbage found zero = refl
length-garbage found (suc size) = ap suc (length-garbage found size)

garbage-IsNumber : (found : ℕ → ℕ) (size : ℕ) → IsNumber (garbage found size)
unfolding garbage
garbage-IsNumber found zero = tt
garbage-IsNumber found (suc size) = (omega arith, garbage-IsNumber found size)

get_or-append_last : {A : Type 0} (h : List A) (x d : A) → get_or (h ++ (x ∷ [])) (length h) d ≡ x
get_or-append_last [] x d = refl
get_or-append_last (y ∷ h) x d = get_or-append_last h x d

get_or-append_front :
    {A : Type 0} (h : List A) (x d : A) (m : ℕ)
    → m < length h
    → get_or (h ++ (x ∷ [])) m d ≡ get_or h m d
get_or-append_front [] x d m l = absurd (omega arith)
get_or-append_front (y ∷ h) x d zero l = refl
get_or-append_front (y ∷ h) x d (suc m) l = get_or-append_front h x d m (omega arith)

-- Whatever the allocated memory holds, create_nat gives a new nat of the length asked for, all of
-- whose digits are digits, and leaves every other nat as it was.
pub create_nat_lem :
    (found : ℕ → ℕ) (h : Heap) (size : ℕ)
    → IsHeap h
    → let c = create_nat found h size in
      (length_nat c.heap c.nat ≡ size)
      × IsHeap c.heap
      × (length h ≤ c.nat)
      × ((m : ℕ) → m < length h → digits_of c.heap m ≡ digits_of h m)
unfolding create_nat length_nat
create_nat_lem found h size hs = (
  omega (
    arith,
    ap (λ (l : List ℕ). length l) (get_or-append_last h (garbage found size) []),
    length-garbage found size,
  ),
  All-append IsNumber h (garbage found size ∷ []) hs (garbage-IsNumber found size, tt),
  omega arith,
  λ m l. get_or-append_front h (garbage found size) [] m l,
)

pub zeros_lem :
    (len : ℕ) → (value (zeros len) ≡ 0) × IsNumber (zeros len) × (length (zeros len) ≡ len)
unfolding zeros
zeros_lem zero = (refl, tt, refl)
zeros_lem (suc len) =
    let (v, n, l) = zeros_lem len in (omega (arith, v), (omega arith, n), ap suc l)

-- For a region in bounds, set_to_zero_nat leaves 0 in it and changes no other digit of any nat.
pub set_to_zero_nat_lem :
    (h : Heap) (nat ofs len : ℕ)
    → IsHeap h
    → InBounds h nat ofs len
    → (value (region (set_to_zero_nat h nat ofs len) nat ofs len) ≡ 0)
      × IsUpdate h nat ofs len (set_to_zero_nat h nat ofs len)
unfolding set_to_zero_nat
set_to_zero_nat_lem h nat ofs len hs hin =
    let (v, n, l) = zeros_lem len in
    let w = write-IsWritten h nat ofs len (zeros len) hs hin n l in (ap value w.now ∙ v, w.update)

-- For regions in bounds, overlapping ones included, blit_nat leaves in the first what the second
-- held before, and changes no other digit of any nat.
pub blit_nat_lem :
    (h : Heap) (nat1 ofs1 nat2 ofs2 len : ℕ)
    → IsHeap h
    → InBounds h nat1 ofs1 len
    → InBounds h nat2 ofs2 len
    → (region (blit_nat h nat1 ofs1 nat2 ofs2 len) nat1 ofs1 len ≡ region h nat2 ofs2 len)
      × IsUpdate h nat1 ofs1 len (blit_nat h nat1 ofs1 nat2 ofs2 len)
unfolding blit_nat
blit_nat_lem h nat1 ofs1 nat2 ofs2 len hs in1 in2 =
    let w =
      write-IsWritten h nat1 ofs1 len (region h nat2 ofs2 len) hs in1
        (region-IsNumber h nat2 ofs2 len hs) (length-region h nat2 ofs2 len in2) in
    (w.now, w.update)
