-- ===== src/Bng/Number.antt =====
-- The numbers of num/src/bng.h: {a,alen} is a list of digits, lowest first, and `value` is the
-- number that it stands for.
use Prim.Native.Nat.add
use native.Mathlib.Nat.{lt_of_mul-lt-mul_left}
use ppx_universe.Base.{
  ℕ, zero, suc, ◌+◌, ◌*◌, ◌≤◌, ◌<◌, ◌≡◌, refl, sym, ◌∙◌, ap₂, List, [], ◌∷◌, ◌++◌, arith, length,
  All, take, get_or,
}
use ppx_universe.Bng.Digit.{base, IsDigit}

abbrev pub IsNumber : List ℕ → Type 0
IsNumber a = All IsDigit a

abbrev pub value : List ℕ → ℕ
value [] = 0
value (x ∷ xs) = x + base * value xs

-- base to the power n: the bound of the numbers of n digits.
abbrev pub base_pow : ℕ → ℕ
base_pow zero = 1
base_pow (suc n) = base * base_pow n

-- The digits that an operation leaves in {a,alen}, and the carry that it returns.
pub record Carried : Type 0 where
  pub digits : List ℕ
  pub carry : ℕ

-- `r` holds the number `n` in `len` digits and a carry.
pub record IsTotal (n len : ℕ) (r : Carried) : Type 0 where
  pub total : value r.digits + base_pow len * r.carry ≡ n
  pub digits : IsNumber r.digits
  pub same_length : length r.digits ≡ len

-- `r` holds the difference `x - y` in `len` digits and a borrow.
pub record IsDifference (x y len : ℕ) (r : Carried) : Type 0 where
  pub total : value r.digits + y ≡ x + base_pow len * r.carry
  pub digits : IsNumber r.digits
  pub same_length : length r.digits ≡ len

pub value-lt-base_pow : (a : List ℕ) → IsNumber a → value a < base_pow (length a)
value-lt-base_pow [] h = omega arith
value-lt-base_pow (x ∷ xs) (hx, h) = omega (arith, value-lt-base_pow xs h)

pub base_pow-pos : (n : ℕ) → 0 < base_pow n
base_pow-pos zero = omega arith
base_pow-pos (suc n) = omega (arith, base_pow-pos n)

pub base_pow-add : (m n : ℕ) → base_pow (m + n) ≡ base_pow m * base_pow n
base_pow-add zero n = rw (add.zero n) (omega arith)
base_pow-add (suc m) n = rw (add.suc m n) (omega (arith, base_pow-add m n))

pub base_pow-le : (m n : ℕ) → m ≤ n → base_pow m ≤ base_pow n
base_pow-le zero n h = base_pow-pos n
base_pow-le (suc m) zero h = elim h [ ]
base_pow-le (suc m) (suc n) h = omega (arith, base_pow-le m n (omega arith))

pub value-append : (a b : List ℕ) → value (a ++ b) ≡ value a + base_pow (length a) * value b
value-append [] b = omega arith
value-append (x ∷ xs) b = omega (arith, value-append xs b)

pub value-take-suc :
    (n : ℕ) (a : List ℕ) → value (take (suc n) a) ≡ value (take n a) + base_pow n * get_or a n 0
value-take-suc zero [] = omega arith
value-take-suc zero (x ∷ xs) = omega arith
value-take-suc (suc n) [] = omega arith
value-take-suc (suc n) (x ∷ xs) = omega (arith, value-take-suc n xs)

pub value-take_all : (a : List ℕ) → value (take (length a) a) ≡ value a
value-take_all [] = omega arith
value-take_all (x ∷ xs) = omega (arith, value-take_all xs)

pub value-take-lt : (n : ℕ) (a : List ℕ) → IsNumber a → value (take n a) < base_pow n
value-take-lt zero a h = omega arith
value-take-lt (suc n) [] h = omega (arith, base_pow-pos n)
value-take-lt (suc n) (x ∷ xs) (hx, h) = omega (arith, value-take-lt n xs h)

pub get_or-IsDigit : (n : ℕ) (a : List ℕ) → IsNumber a → IsDigit (get_or a n 0)
get_or-IsDigit n [] h = omega arith
get_or-IsDigit zero (x ∷ xs) (hx, h) = hx
get_or-IsDigit (suc n) (x ∷ xs) (hx, h) = get_or-IsDigit n xs h

-- A bound on the total bounds the carry.
pub carry-le :
    (k n len : ℕ) {r : Carried} → IsTotal n len r → n < (k + 1) * base_pow len → r.carry ≤ k
carry-le k n len {r} t h =
    let less =
      lt_of_mul-lt-mul_left (base_pow len) {m = r.carry} {n = k + 1} (omega (arith, t.total)) in
    omega arith

-- The digit on top of the `e` lower ones.
pub value-take_top :
    (a : List ℕ) (n e : ℕ)
    → n ≡ suc e
    → value (take n a) ≡ value (take e a) + base_pow e * get_or a e 0
value-take_top a n e h = rw h (value-take-suc e a)

pub value_top :
    (a : List ℕ) (n e : ℕ)
    → length a ≡ n
    → n ≡ suc e
    → value a ≡ value (take e a) + base_pow e * get_or a e 0
value_top a n e len h = rw (len ∙ h, value-take-suc e a) at (sym (value-take_all a))

-- Two numbers of one length with the same value are the same digits.
pub value_injective :
    (a b : List ℕ) → IsNumber a → IsNumber b → length a ≡ length b → value a ≡ value b → a ≡ b
value_injective [] [] ha hb hl e = refl
value_injective [] (y ∷ ys) ha hb hl e = absurd (omega arith)
value_injective (x ∷ xs) [] ha hb hl e = absurd (omega arith)
value_injective (x ∷ xs) (y ∷ ys) (hx, ha) (hy, hb) hl e =
    ap₂ ◌∷◌ (omega arith) (value_injective xs ys ha hb (omega arith) (omega arith))
