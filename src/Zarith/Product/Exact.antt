-- ===== src/Zarith/Product/Exact.antt =====
-- The products of integers.
use ppx_universe.Base.{
  ℕ, ◌*◌, ◌<◌, ◌≡◌, ap, List, [], ◌∷◌, ◌++◌, Bool, true, ◌||◌, ◌&&◌, ◌==◌, ltb, length, get_or,
  arith, All-append,
}
use ppx_universe.Mlvalues.{long_val}
use ppx_universe.Bng.Digit.{IsDigit}
use ppx_universe.Bng.Number.{IsNumber, value, base_pow, value-append}
use ppx_universe.Zarith.{Z, long, block, Arg, z_arg, xor_sign, with_carry}
use ppx_universe.Zarith.Values.{z_plus, z_minus, IsZ, IsSigned, either}
use ppx_universe.Zarith.Limbs.{IsNonzero, z_arg-IsLimbs, IsLimbs-IsNonzero}
use ppx_universe.Zarith.Product.{MpnProducts, z_fits_hint, mul_limbs, mul_args, ml_z_mul}
use ppx_universe.Zarith.Product.Words.{small_arg}
use ppx_universe.Zarith.Product.Parts.{
  IsMpnProducts, IsProduct, IsArgProduct, args-IsProduct, reduced-IsSigned, one_limb,
  zero-IsProduct, zero_product, zero_args, small_args-IsArgProduct,
}

module _ (mpn : MpnProducts) (gmp : IsMpnProducts mpn) where
  mul_1-IsSigned :
      (a b : List ℕ) (s : Bool)
      → IsNumber a
      → IsNumber b
      → 0 < length a
      → length b ≡ 1
      → IsSigned s (value a * value b) (with_carry (mpn.mul_1 a (get_or b 0 0)) s)
  mul_1-IsSigned a b s ha hb pa one =
      let (digit, only) = one_limb b hb one in
      let (total, carry) = gmp.mul_1 a (get_or b 0 0) ha digit pa in
      let r = mpn.mul_1 a (get_or b 0 0) in
      let v : value (r.digits ++ (r.carry ∷ [])) ≡ value a * value b = omega (
        arith,
        value-append r.digits (r.carry ∷ []),
        total.total,
        ap (λ n. base_pow n * r.carry) total.same_length,
        ap (λ n. value a * n) only,
      ) in
      reduced-IsSigned (r.digits ++ (r.carry ∷ [])) s (value a * value b)
        (All-append IsDigit r.digits (r.carry ∷ []) total.digits (carry, tt), v)

  mul_limbs-IsArgProduct :
      (shared : Bool) (a b : Arg)
      → (shared ≡ true → a ≡ b)
      → IsNonzero a.limbs
      → IsNonzero b.limbs
      → IsArgProduct a b (mul_limbs mpn shared a b)
  unfolding mul_limbs
  mul_limbs-IsArgProduct shared a b same (na, pa, _) (nb, pb, _) =
      let P = IsArgProduct a b in
      let s = xor_sign a.negative b.negative in
      let x = value a.limbs in
      let y = value b.limbs in
      let turn : y * x ≡ x * y = omega arith in
      either P (length b.limbs == 1) _ _
        (λ e. mul_1-IsSigned a.limbs b.limbs s na nb pa (ground arith))
        (λ e.
          either P (length a.limbs == 1) _ _
            (λ e'. rw turn at (mul_1-IsSigned b.limbs a.limbs s nb na pb (ground arith)))
            (λ e'.
              either P (ltb (length b.limbs) (length a.limbs)) _ _
                (λ l.
                  reduced-IsSigned (mpn.mul a.limbs b.limbs) s (x * y)
                    (gmp.mul a.limbs b.limbs na nb pb (ground arith)))
                (λ l.
                  either P (ltb (length a.limbs) (length b.limbs)) _ _
                    (λ l'. rw turn at (
                      reduced-IsSigned (mpn.mul b.limbs a.limbs) s (y * x)
                        (gmp.mul b.limbs a.limbs nb na pa (ground arith))))
                    (λ l'.
                      either P shared _ _
                        (λ h.
                          let square : x * x ≡ x * y =
                            ap (λ (c : Arg). x * value c.limbs) (same h) in
                          rw square at
                            (reduced-IsSigned (mpn.sqr a.limbs) s (x * x) (gmp.sqr a.limbs na pa)))
                        (λ h.
                          reduced-IsSigned (mpn.mul_n a.limbs b.limbs) s (x * y)
                            (gmp.mul_n a.limbs b.limbs na nb pb (ground arith)))))))

  mul_args-IsProduct :
      (shared : Bool) (z1 z2 : Z)
      → (shared ≡ true → z1 ≡ z2)
      → IsZ z1
      → IsZ z2
      → IsProduct
          (z_plus z1)
          (z_minus z1)
          (z_plus z2)
          (z_minus z2)
          (mul_args mpn shared (z_arg z1) (z_arg z2))
  unfolding mul_args
  mul_args-IsProduct shared z1 z2 same h1 h2 =
      let a = z_arg z1 in
      let b = z_arg z2 in
      args-IsProduct z1 z2 _ (
        either (IsArgProduct a b) ((length a.limbs == 0) || (length b.limbs == 0)) (long 0) _
          (λ e.
            zero-IsProduct (xor_sign a.negative b.negative) (value a.limbs * value b.limbs)
              (zero_product a.limbs b.limbs e))
          (λ e.
            mul_limbs-IsArgProduct shared a b (λ h. ap z_arg (same h))
              (IsLimbs-IsNonzero a.limbs (z_arg-IsLimbs z1 h1) (ground arith))
              (IsLimbs-IsNonzero b.limbs (z_arg-IsLimbs z2 h2) (ground arith))))

  -- Over products of GMP that compute what it documents, where the limbs are shared only if the
  -- arguments are the same, ml_z_mul of two valid integers, unboxed or in blocks, of any signs, is
  -- the valid representation of the exact product: no product wraps around on the path over native
  -- integers.
  pub ml_z_mul_lem :
      (shared : Bool) (arg1 arg2 : Z)
      → (shared ≡ true → arg1 ≡ arg2)
      → IsZ arg1
      → IsZ arg2
      → IsProduct
          (z_plus arg1)
          (z_minus arg1)
          (z_plus arg2)
          (z_minus arg2)
          (ml_z_mul mpn shared arg1 arg2)
  unfolding ml_z_mul
  ml_z_mul_lem shared (long a) (long b) same h1 h2 =
      let z1 = z_arg (long a) in
      let z2 = z_arg (long b) in
      let P = IsProduct (z_plus (long a)) (z_minus (long a)) (z_plus (long b)) (z_minus (long b)) in
      either P ((long_val a == 0) || (long_val b == 0)) (long 0) _
        (λ e. args-IsProduct (long a) (long b) (long 0) (
          zero-IsProduct (xor_sign z1.negative z2.negative) (value z1.limbs * value z2.limbs)
            (zero_product z1.limbs z2.limbs (zero_args a b e))))
        (λ e.
          either P (z_fits_hint a && z_fits_hint b) _ _
            (λ fits. args-IsProduct (long a) (long b) _ (
              small_args-IsArgProduct z1 z2 (long_val a) (long_val b)
                (small_arg a h1 (ground arith) (ground arith))
                (small_arg b h2 (ground arith) (ground arith))))
            (λ _. mul_args-IsProduct shared (long a) (long b) same h1 h2))
  ml_z_mul_lem shared (long a) (block t bs) same h1 h2 =
      mul_args-IsProduct shared (long a) (block t bs) same h1 h2
  ml_z_mul_lem shared (block s as') arg2 same h1 h2 =
      mul_args-IsProduct shared (block s as') arg2 same h1 h2
