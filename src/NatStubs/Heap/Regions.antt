-- ===== src/NatStubs/Heap/Regions.antt =====
-- What a write into a region of a nat changes.
use ppx_universe.Base.{
  ℕ, zero, suc, ◌<◌, ◌≡◌, ◌≢◌, refl, ap, List, [], ◌∷◌, arith, length, All, get_or, set,
}
use ppx_universe.Bng.Number.{IsNumber}
use ppx_universe.NatStubs.Heap.{Heap, IsHeap, digits_of}
use ppx_universe.Base.Splice.{splice}

module _ {ℓ} {A : Type ℓ} where
  pub get_or-set_same : (h : List A) (n : ℕ) (v d : A) → n < length h → get_or (set h n v) n d ≡ v
  get_or-set_same [] n v d l = absurd (omega arith)
  get_or-set_same (x ∷ h) zero v d l = refl
  get_or-set_same (x ∷ h) (suc n) v d l = get_or-set_same h n v d (omega arith)

  pub get_or-set_other :
      (h : List A) (n m : ℕ) (v d : A) → m ≢ n → get_or (set h n v) m d ≡ get_or h m d
  get_or-set_other [] n m v d ne = refl
  get_or-set_other (x ∷ h) zero zero v d ne = absurd (ne refl)
  get_or-set_other (x ∷ h) zero (suc m) v d ne = refl
  get_or-set_other (x ∷ h) (suc n) zero v d ne = refl
  get_or-set_other (x ∷ h) (suc n) (suc m) v d ne = get_or-set_other h n m v d (λ e. ne (ap suc e))

  pub length-set : (h : List A) (n : ℕ) (v : A) → length (set h n v) ≡ length h
  length-set [] n v = refl
  length-set (x ∷ h) zero v = refl
  length-set (x ∷ h) (suc n) v = ap suc (length-set h n v)

  pub All-set : (P : A → Type 0) (h : List A) (n : ℕ) (v : A) → All P h → P v → All P (set h n v)
  All-set P [] n v hs hv = hs
  All-set P (x ∷ h) zero v (hx, hs) hv = (hv, hs)
  All-set P (x ∷ h) (suc n) v (hx, hs) hv = (hx, All-set P h n v hs hv)

pub digits_of-IsNumber : (h : Heap) (nat : ℕ) → IsHeap h → IsNumber (digits_of h nat)
digits_of-IsNumber [] nat hs = tt
digits_of-IsNumber (x ∷ h) zero (hx, hs) = hx
digits_of-IsNumber (x ∷ h) (suc nat) (hx, hs) = digits_of-IsNumber h nat hs

pub splice-IsNumber :
    (a : List ℕ) (ofs : ℕ) (ds : List ℕ) → IsNumber a → IsNumber ds → IsNumber (splice a ofs ds)
unfolding splice
splice-IsNumber [] ofs ds ha hd = tt
splice-IsNumber (x ∷ a) zero [] ha hd = ha
splice-IsNumber (x ∷ a) zero (d ∷ ds) (hx, ha) (hd, hds) = (hd, splice-IsNumber a 0 ds ha hds)
splice-IsNumber (x ∷ a) (suc ofs) ds (hx, ha) hd = (hx, splice-IsNumber a ofs ds ha hd)
