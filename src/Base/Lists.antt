-- ===== src/Base/Lists.antt =====
-- Lists measured and indexed by native numbers, under the library's names.
use Prim.Native.Nat.{ℕ, zero, suc, ◌+◌, ◌-◌, ◌≤◌, ◌<◌, min}
use mathlib.Core.Path.{◌≡◌, refl, ap}
use mathlib.Core.List.{List, [], ◌∷◌, ◌++◌}
use native.Mathlib.Omega.{arith}

module _ {ℓ} {A : Type ℓ} where
  abbrev pub length : List A → ℕ
  length [] = 0
  length (x ∷ xs) = suc (length xs)

  abbrev pub All {κ} : (A → Type κ) → List A → Type κ
  All P [] = Unit {κ}
  All P (x ∷ xs) = P x × All P xs

  abbrev pub get_or : List A → ℕ → A → A
  get_or [] i d = d
  get_or (x ∷ xs) zero d = x
  get_or (x ∷ xs) (suc i) d = get_or xs i d

  -- A write out of bounds changes nothing.
  abbrev pub set : List A → ℕ → A → List A
  set [] i v = []
  set (x ∷ xs) zero v = v ∷ xs
  set (x ∷ xs) (suc i) v = x ∷ set xs i v

  abbrev pub take : ℕ → List A → List A
  take zero xs = []
  take (suc n) [] = []
  take (suc n) (x ∷ xs) = x ∷ take n xs

  abbrev pub drop : ℕ → List A → List A
  drop zero xs = xs
  drop (suc n) [] = []
  drop (suc n) (x ∷ xs) = drop n xs

  pub length-append : (xs ys : List A) → length (xs ++ ys) ≡ length xs + length ys
  length-append [] ys = omega arith
  length-append (x ∷ xs) ys = omega (arith, length-append xs ys)

  pub take-append-drop : (n : ℕ) (xs : List A) → take n xs ++ drop n xs ≡ xs
  take-append-drop zero xs = refl
  take-append-drop (suc n) [] = refl
  take-append-drop (suc n) (x ∷ xs) = rw (take-append-drop n xs)

  pub length-take : (n : ℕ) (xs : List A) → length (take n xs) ≡ min n (length xs)
  length-take zero xs = omega arith
  length-take (suc n) [] = omega arith
  length-take (suc n) (x ∷ xs) = omega (arith, length-take n xs)

  pub length-drop : (n : ℕ) (xs : List A) → length (drop n xs) ≡ length xs - n
  length-drop zero xs = omega arith
  length-drop (suc n) [] = omega arith
  length-drop (suc n) (x ∷ xs) = omega (arith, length-drop n xs)

module _ {ℓ κ} {A : Type ℓ} (P : A → Type κ) where
  pub All-append : (xs ys : List A) → All P xs → All P ys → All P (xs ++ ys)
  All-append [] ys h k = k
  All-append (x ∷ xs) ys (hx, h) k = (hx, All-append xs ys h k)

  pub All-take : (n : ℕ) (xs : List A) → All P xs → All P (take n xs)
  All-take zero xs h = tt
  All-take (suc n) [] h = tt
  All-take (suc n) (x ∷ xs) (hx, h) = (hx, All-take n xs h)

  pub All-drop : (n : ℕ) (xs : List A) → All P xs → All P (drop n xs)
  All-drop zero xs h = h
  All-drop (suc n) [] h = tt
  All-drop (suc n) (x ∷ xs) (hx, h) = All-drop n xs h

-- A list that is not empty, taken apart with the equation.
pub List-cons {ℓ} :
    {A : Type ℓ} (l : List A) → 0 < length l → (x : A) × (xs : List A) × (l ≡ x ∷ xs)
List-cons [] h = elim h [ ]
List-cons (x ∷ xs) h = (x, xs, refl)

module _ {ℓ} {A : Type ℓ} where
  pub take-append_front : (xs ys : List A) (n : ℕ) → length xs ≡ n → take n (xs ++ ys) ≡ xs
  take-append_front [] ys zero h = refl
  take-append_front [] ys (suc n) h = absurd (omega arith)
  take-append_front (x ∷ xs) ys zero h = absurd (omega arith)
  take-append_front (x ∷ xs) ys (suc n) h = ap (◌∷◌ x) (take-append_front xs ys n (omega arith))

  pub drop-append_front : (xs ys : List A) (n : ℕ) → length xs ≡ n → drop n (xs ++ ys) ≡ ys
  drop-append_front [] ys zero h = refl
  drop-append_front [] ys (suc n) h = absurd (omega arith)
  drop-append_front (x ∷ xs) ys zero h = absurd (omega arith)
  drop-append_front (x ∷ xs) ys (suc n) h = drop-append_front xs ys n (omega arith)

  pub take_all : (n : ℕ) (xs : List A) → length xs ≤ n → take n xs ≡ xs
  take_all zero [] h = refl
  take_all zero (x ∷ xs) h = absurd (omega arith)
  take_all (suc n) [] h = refl
  take_all (suc n) (x ∷ xs) h = ap (◌∷◌ x) (take_all n xs (omega arith))

  pub drop_all : (n : ℕ) (xs : List A) → length xs ≤ n → drop n xs ≡ []
  drop_all zero [] h = refl
  drop_all zero (x ∷ xs) h = absurd (omega arith)
  drop_all (suc n) [] h = refl
  drop_all (suc n) (x ∷ xs) h = drop_all n xs (omega arith)

  pub take-take : (j k : ℕ) (xs : List A) → j ≤ k → take j (take k xs) ≡ take j xs
  take-take zero k xs h = refl
  take-take (suc j) zero xs h = absurd (omega arith)
  take-take (suc j) (suc k) [] h = refl
  take-take (suc j) (suc k) (x ∷ xs) h = ap (◌∷◌ x) (take-take j k xs (omega arith))

  pub take-append-take : (xs : List A) (k n : ℕ) → take k xs ++ take n (drop k xs) ≡ take (k + n) xs
  take-append-take xs zero n = let e : 0 + n ≡ n = omega arith in rw e refl
  take-append-take [] (suc k) zero = let e : suc k + 0 ≡ suc k = omega arith in rw e refl
  take-append-take [] (suc k) (suc n) =
      let e : suc k + suc n ≡ suc (suc (k + n)) = omega arith in rw e refl
  take-append-take (x ∷ xs) (suc k) n =
      let e : suc k + n ≡ suc (k + n) = omega arith in rw e (ap (◌∷◌ x) (take-append-take xs k n))

  pub drop-drop : (xs : List A) (p k : ℕ) → drop k (drop p xs) ≡ drop (p + k) xs
  drop-drop xs zero k = let e : 0 + k ≡ k = omega arith in rw e refl
  drop-drop [] (suc p) zero = let e : suc p + 0 ≡ suc p = omega arith in rw e refl
  drop-drop [] (suc p) (suc k) =
      let e : suc p + suc k ≡ suc (suc (p + k)) = omega arith in rw e refl
  drop-drop (x ∷ xs) (suc p) k =
      let e : suc p + k ≡ suc (p + k) = omega arith in rw e (drop-drop xs p k)

  -- Two stretches that follow one another.
  pub take-drop-append :
      (xs : List A) (p k n : ℕ)
      → take k (drop p xs) ++ take n (drop (p + k) xs) ≡ take (k + n) (drop p xs)
  take-drop-append xs p k n = rw (← drop-drop xs p k) (take-append-take (drop p xs) k n)
