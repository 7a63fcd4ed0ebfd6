-- ===== src/Zarith/Sums.antt =====
-- Sums and differences, over what GMP documents.
use ppx_universe.Base.{
  ℕ, ◌+◌, ◌-◌, ◌*◌, ◌≤◌, ◌<◌, ◌≡◌, sym, ap, List, [], ◌∷◌, ◌++◌, Bool, true, false, not,
  if◌then◌else◌, leb, ltb, length, arith, All-append,
}
use ppx_universe.Bng.Digit.{IsDigit}
use ppx_universe.Bng.Number.{
  IsNumber, value, base_pow, value-append, value-lt-base_pow, base_pow-le,
}
use ppx_universe.Zarith.{
  Z, long, Order, less, same, greater, Mpn, ml_z_reduce, with_carry, sub_cmp, addsub_limbs,
}
use ppx_universe.Zarith.Values.{
  signed, z_plus, z_minus, IsZ, IsSigned, ml_z_reduce_lem, either, zero-IsSigned,
}
use ppx_universe.Zarith.Limbs.{IsOrder, IsMpn, IsNonzero}

-- The integer of the result is p - m + (q - n).
abbrev pub IsSum : ℕ → ℕ → ℕ → ℕ → Z → Type 0
IsSum p m q n r = IsZ r × (z_plus r + m + n ≡ z_minus r + p + q)

signed-IsSum :
    (s : Bool) (x y : ℕ) (r : Z)
    → IsSigned s (x + y) r
    → IsSum (signed (not s) x) (signed s x) (signed (not s) y) (signed s y) r
signed-IsSum true x y r h = (h.valid, omega (arith, h.plus, h.minus))
signed-IsSum false x y r h = (h.valid, omega (arith, h.plus, h.minus))

signed-IsSum_left :
    (s : Bool) (d x y : ℕ) (r : Z)
    → IsSigned s d r
    → d + y ≡ x
    → IsSum (signed (not s) x) (signed s x) (signed s y) (signed (not s) y) r
signed-IsSum_left true d x y r h e = (h.valid, omega (arith, h.plus, h.minus, e))
signed-IsSum_left false d x y r h e = (h.valid, omega (arith, h.plus, h.minus, e))

signed-IsSum_right :
    (s : Bool) (d x y : ℕ) (r : Z)
    → IsSigned (not s) d r
    → d + x ≡ y
    → IsSum (signed (not s) x) (signed s x) (signed s y) (signed (not s) y) r
signed-IsSum_right true d x y r h e = (h.valid, omega (arith, h.plus, h.minus, e))
signed-IsSum_right false d x y r h e = (h.valid, omega (arith, h.plus, h.minus, e))

module _ (mpn : Mpn) (gmp : IsMpn mpn) where
  with_carry-IsSigned :
      (a b : List ℕ) (s : Bool)
      → IsNumber a
      → IsNumber b
      → 0 < length b
      → length b ≤ length a
      → IsSigned s (value a + value b) (with_carry (mpn.add a b) s)
  with_carry-IsSigned a b s ha hb pb h =
      let (total, bound) = gmp.add a b ha hb pb h in
      let digits = (mpn.add a b).digits in
      let carry = (mpn.add a b).carry in
      let v : value (digits ++ (carry ∷ [])) ≡ value a + value b = omega (
        arith,
        value-append digits (carry ∷ []),
        total.total,
        ap (λ n. base_pow n * carry) total.same_length,
      ) in
      rw (sym v) (
        ml_z_reduce_lem (digits ++ (carry ∷ [])) s
          (All-append IsDigit digits (carry ∷ []) total.digits (omega arith, tt)))

  longer-le : (a b : List ℕ) → IsNonzero a → IsNonzero b → length b < length a → value b ≤ value a
  longer-le a b (na, _, big) (nb, _, _) h =
      omega (arith, value-lt-base_pow b nb, base_pow-le (length b) (length a - 1) (omega arith))

  sub_left-IsSum :
      (s : Bool) (a b : List ℕ)
      → IsNonzero a
      → IsNonzero b
      → length b ≤ length a
      → value b ≤ value a
      → IsSum
          (signed (not s) (value a))
          (signed s (value a))
          (signed s (value b))
          (signed (not s) (value b))
          (ml_z_reduce (mpn.sub a b) s)
  sub_left-IsSum s a b (na, pa, _) (nb, pb, _) h le =
      let (number, total) = gmp.sub a b na nb pb h le in
      signed-IsSum_left s (value (mpn.sub a b)) (value a) (value b) _
        (ml_z_reduce_lem (mpn.sub a b) s number) total

  sub_right-IsSum :
      (s : Bool) (a b : List ℕ)
      → IsNonzero a
      → IsNonzero b
      → length a ≤ length b
      → value a ≤ value b
      → IsSum
          (signed (not s) (value a))
          (signed s (value a))
          (signed s (value b))
          (signed (not s) (value b))
          (ml_z_reduce (mpn.sub b a) (not s))
  sub_right-IsSum s a b (na, pa, _) (nb, pb, _) h le =
      let (number, total) = gmp.sub b a nb na pa h le in
      signed-IsSum_right s (value (mpn.sub b a)) (value a) (value b) _
        (ml_z_reduce_lem (mpn.sub b a) (not s) number) total

  sub_cmp-IsSum :
      (s : Bool) (a b : List ℕ) (o : Order)
      → IsNonzero a
      → IsNonzero b
      → length a ≡ length b
      → IsOrder o (value a) (value b)
      → IsSum
          (signed (not s) (value a))
          (signed s (value a))
          (signed s (value b))
          (signed (not s) (value b))
          (sub_cmp mpn
            (record { negative = s; limbs = a })
            (record { negative = not s; limbs = b })
            o)
  sub_cmp-IsSum s a b less la lb h o = sub_right-IsSum s a b la lb (omega arith) (omega arith)
  sub_cmp-IsSum s a b greater la lb h o = sub_left-IsSum s a b la lb (omega arith) (omega arith)
  sub_cmp-IsSum s a b same la lb h o =
      signed-IsSum_left s 0 (value a) (value b) (long 0) (zero-IsSigned s) (omega arith)

  addsub_limbs-same :
      (s : Bool) (a b : List ℕ)
      → IsNonzero a
      → IsNonzero b
      → IsSum
          (signed (not s) (value a))
          (signed s (value a))
          (signed (not s) (value b))
          (signed s (value b))
          (if leb (length b) (length a)
            then with_carry (mpn.add a b) s
            else with_carry (mpn.add b a) s)
  addsub_limbs-same s a b (na, pa, _) (nb, pb, _) =
      let turn : value b + value a ≡ value a + value b = omega arith in
      either
        (IsSum (signed (not s) (value a)) (signed s (value a)) (signed (not s) (value b))
          (signed s (value b)))
        (leb (length b) (length a)) (with_carry (mpn.add a b) s) (with_carry (mpn.add b a) s)
        (λ e.
          signed-IsSum s (value a) (value b) _ (with_carry-IsSigned a b s na nb pb (ground arith)))
        (λ e.
          signed-IsSum s (value a) (value b) _
            (rw turn at (with_carry-IsSigned b a s nb na pa (ground arith))))

  addsub_limbs-other :
      (s : Bool) (a b : List ℕ)
      → IsNonzero a
      → IsNonzero b
      → IsSum
          (signed (not s) (value a))
          (signed s (value a))
          (signed s (value b))
          (signed (not s) (value b))
          (if ltb (length b) (length a)
            then ml_z_reduce (mpn.sub a b) s
            else if ltb (length a) (length b)
            then ml_z_reduce (mpn.sub b a) (not s)
            else sub_cmp mpn
                (record { negative = s; limbs = a })
                (record { negative = not s; limbs = b })
                (mpn.cmp a b))
  addsub_limbs-other s a b la lb =
      let P =
        IsSum (signed (not s) (value a)) (signed s (value a)) (signed s (value b))
          (signed (not s) (value b)) in
      either P (ltb (length b) (length a)) (ml_z_reduce (mpn.sub a b) s) _
        (λ e. sub_left-IsSum s a b la lb (ground arith) (longer-le a b la lb (ground arith)))
        (λ e.
          either P (ltb (length a) (length b)) (ml_z_reduce (mpn.sub b a) (not s)) _
            (λ e'. sub_right-IsSum s a b la lb (ground arith) (longer-le b a lb la (ground arith)))
            (λ e'.
              let equal : length a ≡ length b = ground arith in
              sub_cmp-IsSum s a b (mpn.cmp a b) la lb equal (gmp.cmp a b la.0 lb.0 lb.1 equal)))

  pub addsub_limbs-IsSum :
      (s t : Bool) (a b : List ℕ)
      → IsNonzero a
      → IsNonzero b
      → IsSum
          (signed (not s) (value a))
          (signed s (value a))
          (signed (not t) (value b))
          (signed t (value b))
          (addsub_limbs mpn
            (record { negative = s; limbs = a })
            (record { negative = t; limbs = b }))
  unfolding addsub_limbs
  addsub_limbs-IsSum true true a b la lb = addsub_limbs-same true a b la lb
  addsub_limbs-IsSum false false a b la lb = addsub_limbs-same false a b la lb
  addsub_limbs-IsSum true false a b la lb = addsub_limbs-other true a b la lb
  addsub_limbs-IsSum false true a b la lb = addsub_limbs-other false a b la lb
