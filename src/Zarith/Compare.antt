-- ===== src/Zarith/Compare.antt =====
-- ml_z_compare orders integers.
use ppx_universe.Base.{
  ℕ, zero, suc, ◌+◌, ◌-◌, ◌*◌, ◌%◌, ◌^◌, ◌≤◌, ◌<◌, ◌≡◌, inl, inr, refl, sym, List, Bool, true,
  false, not, ◌==◌, ltb, length, get_or, take, arith,
}
use ppx_universe.Mlvalues.{long_val, long_val-lt}
use ppx_universe.Bng.Number.{
  IsNumber, value, base_pow, value-take-suc, value-take-lt, value-take_all, value-lt-base_pow,
  base_pow-le,
}
use ppx_universe.Bng.Compare.Order.{times_lt, times_eq}
use ppx_universe.Zarith.{
  order, flip, compare_limbs, compare_sizes, compare_args, ml_z_compare, Z, long, block, Order,
  less, same, greater, Arg, z_arg,
}
use ppx_universe.Zarith.Values.{signed, z_plus, z_minus, IsZ, either}
use ppx_universe.Zarith.Limbs.{IsOrder, IsLimbs, z_arg-IsLimbs}
use ppx_universe.Zarith.Exact.{IsWord, long-IsWord}

flip-IsOrder : (o : Order) (x y : ℕ) → IsOrder o x y → IsOrder (flip o) y x
flip-IsOrder less x y h = h
flip-IsOrder same x y h = sym h
flip-IsOrder greater x y h = h

-- The order of two numbers, carried over to two others.
pub order-IsOrder :
    (x y p q : ℕ) → (x < y → p < q) → (x ≡ y → p ≡ q) → (y < x → q < p) → IsOrder (order x y) p q
order-IsOrder x y p q l e g =
    either (λ o. IsOrder o p q) (ltb x y) less _ (λ h. l (ground arith))
      (λ h.
        either (λ o. IsOrder o p q) (ltb y x) greater same (λ h'. g (ground arith))
          (λ h'. e (ground arith)))

compare_limbs-IsOrder :
    (a b : List ℕ) (n : ℕ)
    → IsNumber a
    → IsNumber b
    → IsOrder (compare_limbs a b n) (value (take n a)) (value (take n b))
unfolding compare_limbs
compare_limbs-IsOrder a b zero ha hb = refl
compare_limbs-IsOrder a b (suc n) ha hb =
    let w = base_pow n in
    let x = get_or a n 0 in
    let y = get_or b n 0 in
    let P = λ (o : Order). IsOrder o (value (take n a) + w * x) (value (take n b) + w * y) in
    rw (value-take-suc n a, value-take-suc n b)
      (either P (ltb y x) greater _
        (λ h. omega (arith, times_lt w y x (ground arith), value-take-lt n b hb))
        (λ h.
          either P (ltb x y) less (compare_limbs a b n)
            (λ h'. omega (arith, times_lt w x y (ground arith), value-take-lt n a ha))
            (λ h'.
              shifted (compare_limbs a b n) (value (take n a)) (value (take n b)) (w * x) (w * y)
                (times_eq w x y (ground arith)) (compare_limbs-IsOrder a b n ha hb))))
  where
    shifted : (o : Order) (p q r s : ℕ) → r ≡ s → IsOrder o p q → IsOrder o (p + r) (q + s)
    shifted less p q r s e h = omega arith
    shifted same p q r s e h = omega arith
    shifted greater p q r s e h = omega arith

pub longer-lt : (a b : List ℕ) → IsLimbs a → IsLimbs b → length b < length a → value b < value a
longer-lt a b (na, top) (nb, _) h =
    let big : base_pow (length a - 1) ≤ value a = elim top [
      | inl e ↦ absurd (omega arith)
      | inr e ↦ e
    ] in
    omega (arith, value-lt-base_pow b nb, base_pow-le (length b) (length a - 1) (omega arith))

compare_sizes-IsOrder :
    (a b : Arg)
    → IsLimbs a.limbs
    → IsLimbs b.limbs
    → IsOrder (compare_sizes a b) (value a.limbs) (value b.limbs)
compare_sizes-IsOrder a b la lb =
    let P = λ (o : Order). IsOrder o (value a.limbs) (value b.limbs) in
    either P (ltb (length b.limbs) (length a.limbs)) greater _
      (λ h. longer-lt a.limbs b.limbs la lb (ground arith))
      (λ h.
        either P (ltb (length a.limbs) (length b.limbs)) less _
          (λ h'. longer-lt b.limbs a.limbs lb la (ground arith))
          (λ h'.
            let n : length b.limbs ≡ length a.limbs = ground arith in
            let va = value-take_all a.limbs in
            let vb : value (take (length a.limbs) b.limbs) ≡ value b.limbs =
              rw n at (value-take_all b.limbs) in
            rw (va, vb) at (compare_limbs-IsOrder a.limbs b.limbs (length a.limbs) la.0 lb.0)))

-- A negative number is not 0.
abbrev pub IsNegative : Arg → Type 0
IsNegative a = a.negative ≡ true → 0 < value a.limbs

pub z_arg-IsNegative : (z : Z) → IsZ z → IsNegative (z_arg z)
unfolding z_arg
z_arg-IsNegative (long n) h e =
    let bound = long_val-lt n h in
    let z : (long_val n == 0) ≡ false = ground arith in rw (z, e) (ground arith)
z_arg-IsNegative (block sign limbs) (number, top, big) e = omega arith

zero_left : (o : Order) (x y : ℕ) → IsOrder o x y → IsOrder o (0 + x) (0 + y)
zero_left less x y h = omega arith
zero_left same x y h = omega arith
zero_left greater x y h = omega arith

zero_right : (o : Order) (x y : ℕ) → IsOrder o x y → IsOrder o (x + 0) (y + 0)
zero_right less x y h = omega arith
zero_right same x y h = omega arith
zero_right greater x y h = omega arith

compare_args-IsOrder :
    (s t : Bool) (a b : List ℕ)
    → IsLimbs a
    → IsLimbs b
    → (s ≡ true → 0 < value a)
    → (t ≡ true → 0 < value b)
    → IsOrder
        (compare_args (record { negative = s; limbs = a }) (record { negative = t; limbs = b }))
        (signed (not s) (value a) + signed t (value b))
        (signed (not t) (value b) + signed s (value a))
unfolding compare_args
compare_args-IsOrder true true a b la lb na nb = zero_left _ (value b) (value a) (
    flip-IsOrder _ (value a) (value b) (
      compare_sizes-IsOrder (record { negative = true; limbs = a })
        (record { negative = true; limbs = b }) la lb))
compare_args-IsOrder true false a b la lb na nb = omega (arith, na refl)
compare_args-IsOrder false true a b la lb na nb = omega (arith, nb refl)
compare_args-IsOrder false false a b la lb na nb = zero_right _ (value a) (value b) (
    compare_sizes-IsOrder (record { negative = false; limbs = a })
      (record { negative = false; limbs = b }) la lb)

z_args-IsOrder :
    (z1 z2 : Z)
    → IsZ z1
    → IsZ z2
    → IsOrder (compare_args (z_arg z1) (z_arg z2)) (z_plus z1 + z_minus z2) (z_plus z2 + z_minus z1)
unfolding z_plus z_minus
z_args-IsOrder z1 z2 h1 h2 =
    compare_args-IsOrder (z_arg z1).negative (z_arg z2).negative (z_arg z1).limbs (z_arg z2).limbs
      (z_arg-IsLimbs z1 h1) (z_arg-IsLimbs z2 h2) (z_arg-IsNegative z1 h1) (z_arg-IsNegative z2 h2)

words_lt :
    (a b wa wb pa ma pb mb : ℕ)
    → IsWord a wa pa ma
    → IsWord b wb pb mb
    → (a + 2 ^ 62) % 2 ^ 63 < (b + 2 ^ 62) % 2 ^ 63
    → a < 2 ^ 63
    → b < 2 ^ 63
    → pa + mb < pb + ma
words_lt a b wa wb pa ma pb mb ha hb h la lb = ground arith

pub words_eq :
    (a b wa wb pa ma pb mb : ℕ)
    → IsWord a wa pa ma
    → IsWord b wb pb mb
    → (a + 2 ^ 62) % 2 ^ 63 ≡ (b + 2 ^ 62) % 2 ^ 63
    → a < 2 ^ 63
    → b < 2 ^ 63
    → pa + mb ≡ pb + ma
words_eq a b wa wb pa ma pb mb ha hb h la lb = ground arith

-- ml_z_compare of two valid integers, unboxed or in blocks, of any signs, is the order of the
-- integers, and the least unboxed integer is the same as a block of its value.
pub ml_z_compare_lem :
    (arg1 arg2 : Z)
    → IsZ arg1
    → IsZ arg2
    → IsOrder (ml_z_compare arg1 arg2) (z_plus arg1 + z_minus arg2) (z_plus arg2 + z_minus arg1)
unfolding ml_z_compare
ml_z_compare_lem (long a) (long b) h1 h2 =
    order-IsOrder ((a + 2 ^ 62) % 2 ^ 63) ((b + 2 ^ 62) % 2 ^ 63) _ _
      (λ h. words_lt a b _ _ _ _ _ _ (long-IsWord a h1) (long-IsWord b h2) h h1 h2)
      (λ h. words_eq a b _ _ _ _ _ _ (long-IsWord a h1) (long-IsWord b h2) h h1 h2)
      (λ h. words_lt b a _ _ _ _ _ _ (long-IsWord b h2) (long-IsWord a h1) h h2 h1)
ml_z_compare_lem (long a) (block t bs) h1 h2 = z_args-IsOrder (long a) (block t bs) h1 h2
ml_z_compare_lem (block s as') arg2 h1 h2 = z_args-IsOrder (block s as') arg2 h1 h2
