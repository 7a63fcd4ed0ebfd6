-- ===== src/Base/Splice.antt =====
-- A stretch of an array, written over.
use Prim.Native.Nat.{ℕ, zero, suc, ◌+◌, ◌≤◌, ◌<◌}
use mathlib.Core.Path.{◌≡◌, refl, ap}
use mathlib.Core.Logic.{◌⊎◌}
use mathlib.Core.List.{List, [], ◌∷◌, ◌++◌}
use native.Mathlib.Omega.{arith}
use ppx_universe.Base.Lists.{length, get_or, take, drop}

-- The numbers `ds` written into an array from `ofs` on; what would lie behind its end is lost.
unfoldable pub splice : List ℕ → ℕ → List ℕ → List ℕ
splice [] ofs ds = []
splice (x ∷ a) zero [] = x ∷ a
splice (x ∷ a) zero (d ∷ ds) = d ∷ splice a 0 ds
splice (x ∷ a) (suc ofs) ds = x ∷ splice a ofs ds

pub length-splice : (a : List ℕ) (ofs : ℕ) (ds : List ℕ) → length (splice a ofs ds) ≡ length a
unfolding splice
length-splice [] ofs ds = refl
length-splice (x ∷ a) zero [] = refl
length-splice (x ∷ a) zero (d ∷ ds) = ap suc (length-splice a 0 ds)
length-splice (x ∷ a) (suc ofs) ds = ap suc (length-splice a ofs ds)

pub take-drop-splice :
    (a : List ℕ) (ofs : ℕ) (ds : List ℕ)
    → ofs + length ds ≤ length a
    → take (length ds) (drop ofs (splice a ofs ds)) ≡ ds
unfolding splice
take-drop-splice [] zero [] h = refl
take-drop-splice [] zero (d ∷ ds) h = absurd (omega arith)
take-drop-splice [] (suc ofs) ds h = absurd (omega arith)
take-drop-splice (x ∷ a) zero [] h = refl
take-drop-splice (x ∷ a) zero (d ∷ ds) h = ap (◌∷◌ d) (take-drop-splice a 0 ds (omega arith))
take-drop-splice (x ∷ a) (suc ofs) ds h = take-drop-splice a ofs ds (omega arith)

pub take-splice : (a : List ℕ) (ofs : ℕ) (ds : List ℕ) → take ofs (splice a ofs ds) ≡ take ofs a
unfolding splice
take-splice [] zero ds = refl
take-splice [] (suc ofs) ds = refl
take-splice (x ∷ a) zero ds = refl
take-splice (x ∷ a) (suc ofs) ds = ap (◌∷◌ x) (take-splice a ofs ds)

pub get_or-splice :
    (a : List ℕ) (ofs : ℕ) (ds : List ℕ) (pos : ℕ)
    → (pos < ofs) ⊎ (ofs + length ds ≤ pos)
    → get_or (splice a ofs ds) pos 0 ≡ get_or a pos 0
unfolding splice
get_or-splice [] ofs ds pos h = refl
get_or-splice (x ∷ a) zero [] pos h = refl
get_or-splice (x ∷ a) zero (d ∷ ds) zero h = absurd (ground arith)
get_or-splice (x ∷ a) zero (d ∷ ds) (suc pos) h = get_or-splice a 0 ds pos (ground arith)
get_or-splice (x ∷ a) (suc ofs) ds zero h = refl
get_or-splice (x ∷ a) (suc ofs) ds (suc pos) h = get_or-splice a ofs ds pos (ground arith)

one_later : (n : ℕ) → 0 + suc n ≡ suc (0 + n)
one_later n = omega arith

one_more : (m n : ℕ) → suc m + n ≡ suc (m + n)
one_more m n = omega arith

pub splice-append :
    (a : List ℕ) (ofs : ℕ) (xs ys : List ℕ)
    → splice (splice a ofs xs) (ofs + length xs) ys ≡ splice a ofs (xs ++ ys)
unfolding splice
splice-append [] ofs xs ys = refl
splice-append (x ∷ a) zero [] ys = refl
splice-append (x ∷ a) zero (d ∷ xs) ys =
    rw (one_later (length xs)) (ap (◌∷◌ d) (splice-append a 0 xs ys))
splice-append (x ∷ a) (suc ofs) xs ys =
    rw (one_more ofs (length xs)) (ap (◌∷◌ x) (splice-append a ofs xs ys))

pub splice_nothing : (a : List ℕ) (ofs : ℕ) → splice a ofs [] ≡ a
unfolding splice
splice_nothing [] ofs = refl
splice_nothing (x ∷ a) zero = refl
splice_nothing (x ∷ a) (suc ofs) = ap (◌∷◌ x) (splice_nothing a ofs)
