-- ===== src/Zarith/Quotient/Exact.antt =====
-- The quotients and remainders of integers.
use ppx_universe.Base.{ℕ, ◌&&◌, ◌==◌, leb, length, Option, none, some, arith}
use ppx_universe.Mlvalues.{long_val, val_long}
use ppx_universe.Bng.Number.{value}
use ppx_universe.Zarith.{Z, long, block, z_arg, xor_sign, z_fits_int}
use ppx_universe.Zarith.Values.{IsZ, IsSigned, zero-IsSigned, ml_z_reduce_lem, either}
use ppx_universe.Zarith.Limbs.{z_arg-IsLimbs, IsLimbs-IsNonzero}
use ppx_universe.Zarith.Exact.{empty}
use ppx_universe.Zarith.Compare.{longer-lt}
use ppx_universe.Zarith.Quotient.{
  signed_div, signed_rem, MpnTdivQr, ml_z_tdiv_qr, ml_z_div_rem, first, second, ml_z_div, ml_z_rem,
}
use ppx_universe.Zarith.Quotient.Parts.{
  IsMpnTdivQr, IsZero, IsDivRem, IsDiv, IsRem, IsParts, parts-IsDivRem, parts-IsDiv, parts-IsRem,
}
use ppx_universe.Zarith.Quotient.Native.{
  z-IsSigned, no_value_lem, zero_word_lem, words-IsParts, quotient-IsSigned, remainder-IsSigned,
}

-- What ml_z_tdiv_qr gives, before its parts are taken.
abbrev IsTdivQr : Z → Z → Option (Z × Z) → Type 0
IsTdivQr arg1 arg2 none = IsZero arg2
IsTdivQr arg1 arg2 (some (q, r)) =
    (k : ℕ) × (l : ℕ) × IsParts (z_arg arg1) (z_arg arg2) k l
    × IsSigned (xor_sign (z_arg arg1).negative (z_arg arg2).negative) k q
    × IsSigned (z_arg arg1).negative l r

module _ (mpn_tdiv_qr : MpnTdivQr) (gmp : IsMpnTdivQr mpn_tdiv_qr) where
  ml_z_tdiv_qr-IsTdivQr :
      (arg1 arg2 : Z)
      → IsZ arg1
      → IsZ arg2
      → IsTdivQr arg1 arg2 (ml_z_tdiv_qr mpn_tdiv_qr arg1 arg2)
  unfolding ml_z_tdiv_qr
  ml_z_tdiv_qr-IsTdivQr arg1 arg2 h1 h2 =
      let a = z_arg arg1 in
      let b = z_arg arg2 in
      let la = z_arg-IsLimbs arg1 h1 in
      let lb = z_arg-IsLimbs arg2 h2 in
      let P = IsTdivQr arg1 arg2 in
      either P (length b.limbs == 0) none _ (λ e. no_value_lem arg2 (empty b.limbs (ground arith)))
        (λ e.
          either P (leb (length b.limbs) (length a.limbs)) _ _
            (λ l.
              let r = mpn_tdiv_qr a.limbs b.limbs in
              let (nq, nr, total, below) =
                gmp a.limbs b.limbs la.0 (IsLimbs-IsNonzero b.limbs lb e) (ground arith) in
              (
                value r.0,
                value r.1,
                record { total = total; below = below },
                ml_z_reduce_lem r.0 (xor_sign a.negative b.negative) nq,
                ml_z_reduce_lem r.1 a.negative nr,
              ))
            (λ l. (
              0,
              value a.limbs,
              record {
                total = omega arith;
                below = longer-lt b.limbs a.limbs lb la (ground arith);
              },
              zero-IsSigned (xor_sign a.negative b.negative),
              z-IsSigned arg1 h1,
            )))

IsTdivQr-IsDivRem :
    (arg1 arg2 : Z) (o : Option (Z × Z)) → IsTdivQr arg1 arg2 o → IsDivRem arg1 arg2 o
IsTdivQr-IsDivRem arg1 arg2 none h = h
IsTdivQr-IsDivRem arg1 arg2 (some (q, r)) (k, l, parts, hq, hr) =
    parts-IsDivRem arg1 arg2 k l q r parts hq hr

IsTdivQr-IsDiv :
    (arg1 arg2 : Z) (o : Option (Z × Z)) → IsTdivQr arg1 arg2 o → IsDiv arg1 arg2 (first o)
IsTdivQr-IsDiv arg1 arg2 none h = h
IsTdivQr-IsDiv arg1 arg2 (some (q, r)) (k, l, parts, hq, hr) = parts-IsDiv arg1 arg2 k l q parts hq

IsTdivQr-IsRem :
    (arg1 arg2 : Z) (o : Option (Z × Z)) → IsTdivQr arg1 arg2 o → IsRem arg1 arg2 (second o)
IsTdivQr-IsRem arg1 arg2 none h = h
IsTdivQr-IsRem arg1 arg2 (some (q, r)) (k, l, parts, hq, hr) = parts-IsRem arg1 arg2 k l r parts hr

module _ (mpn_tdiv_qr : MpnTdivQr) (gmp : IsMpnTdivQr mpn_tdiv_qr) where
  slow-IsDivRem :
      (arg1 arg2 : Z)
      → IsZ arg1
      → IsZ arg2
      → IsDivRem arg1 arg2 (ml_z_tdiv_qr mpn_tdiv_qr arg1 arg2)
  slow-IsDivRem arg1 arg2 h1 h2 =
      IsTdivQr-IsDivRem arg1 arg2 _ (ml_z_tdiv_qr-IsTdivQr mpn_tdiv_qr gmp arg1 arg2 h1 h2)

  slow-IsDiv :
      (arg1 arg2 : Z)
      → IsZ arg1
      → IsZ arg2
      → IsDiv arg1 arg2 (first (ml_z_tdiv_qr mpn_tdiv_qr arg1 arg2))
  slow-IsDiv arg1 arg2 h1 h2 =
      IsTdivQr-IsDiv arg1 arg2 (ml_z_tdiv_qr mpn_tdiv_qr arg1 arg2)
        (ml_z_tdiv_qr-IsTdivQr mpn_tdiv_qr gmp arg1 arg2 h1 h2)

  slow-IsRem :
      (arg1 arg2 : Z)
      → IsZ arg1
      → IsZ arg2
      → IsRem arg1 arg2 (second (ml_z_tdiv_qr mpn_tdiv_qr arg1 arg2))
  slow-IsRem arg1 arg2 h1 h2 =
      IsTdivQr-IsRem arg1 arg2 (ml_z_tdiv_qr mpn_tdiv_qr arg1 arg2)
        (ml_z_tdiv_qr-IsTdivQr mpn_tdiv_qr gmp arg1 arg2 h1 h2)

  -- Over a function mpn_tdiv_qr that computes what GMP documents, ml_z_div_rem of two valid
  -- integers, unboxed or in blocks, of any signs, raises Division_by_zero and then the second
  -- integer is 0, or gives valid representations of a quotient and a remainder: the first integer is
  -- their combination with the second, and the remainder is nearer to 0 than the second integer and
  -- has no sign opposite to the first, which makes the division the one towards 0. This holds for
  -- the least unboxed integer over -1 as well.
  pub ml_z_div_rem_lem :
      (arg1 arg2 : Z)
      → IsZ arg1
      → IsZ arg2
      → IsDivRem arg1 arg2 (ml_z_div_rem mpn_tdiv_qr arg1 arg2)
  unfolding ml_z_div_rem
  ml_z_div_rem_lem (long a) (long b) h1 h2 =
      let q = signed_div (long_val a) (long_val b) in
      let r = signed_rem (long_val a) (long_val b) in
      either (IsDivRem (long a) (long b)) (long_val b == 0) none _ (λ e. zero_word_lem b h2 e)
        (λ e.
          either (IsDivRem (long a) (long b)) (z_fits_int q && z_fits_int r) _ _
            (λ fits.
              parts-IsDivRem (long a) (long b) _ _ (long (val_long q)) (long (val_long r))
                (words-IsParts a b h1 h2 e) (quotient-IsSigned a b h1 h2 e (ground arith))
                (remainder-IsSigned a b h1 h2 e))
            (λ _. slow-IsDivRem (long a) (long b) h1 h2))
  ml_z_div_rem_lem (long a) (block t bs) h1 h2 = slow-IsDivRem (long a) (block t bs) h1 h2
  ml_z_div_rem_lem (block s as') arg2 h1 h2 = slow-IsDivRem (block s as') arg2 h1 h2

  -- ml_z_div gives the quotient of such a division, or raises Division_by_zero if the second integer is 0.
  pub ml_z_div_lem :
      (arg1 arg2 : Z) → IsZ arg1 → IsZ arg2 → IsDiv arg1 arg2 (ml_z_div mpn_tdiv_qr arg1 arg2)
  unfolding ml_z_div
  ml_z_div_lem (long a) (long b) h1 h2 =
      let q = signed_div (long_val a) (long_val b) in
      either (IsDiv (long a) (long b)) (long_val b == 0) none _ (λ e. zero_word_lem b h2 e)
        (λ e.
          either (IsDiv (long a) (long b)) (z_fits_int q) _ _
            (λ fits.
              parts-IsDiv (long a) (long b) _ _ (long (val_long q)) (words-IsParts a b h1 h2 e)
                (quotient-IsSigned a b h1 h2 e fits))
            (λ _. slow-IsDiv (long a) (long b) h1 h2))
  ml_z_div_lem (long a) (block t bs) h1 h2 = slow-IsDiv (long a) (block t bs) h1 h2
  ml_z_div_lem (block s as') arg2 h1 h2 = slow-IsDiv (block s as') arg2 h1 h2

  -- ml_z_rem gives the remainder of such a division, or raises Division_by_zero if the second integer is 0.
  pub ml_z_rem_lem :
      (arg1 arg2 : Z) → IsZ arg1 → IsZ arg2 → IsRem arg1 arg2 (ml_z_rem mpn_tdiv_qr arg1 arg2)
  unfolding ml_z_rem
  ml_z_rem_lem (long a) (long b) h1 h2 =
      let r = signed_rem (long_val a) (long_val b) in
      either (IsRem (long a) (long b)) (long_val b == 0) none _ (λ e. zero_word_lem b h2 e)
        (λ e.
          either (IsRem (long a) (long b)) (z_fits_int r) _ _
            (λ fits.
              parts-IsRem (long a) (long b) _ _ (long (val_long r)) (words-IsParts a b h1 h2 e)
                (remainder-IsSigned a b h1 h2 e))
            (λ _. slow-IsRem (long a) (long b) h1 h2))
  ml_z_rem_lem (long a) (block t bs) h1 h2 = slow-IsRem (long a) (block t bs) h1 h2
  ml_z_rem_lem (block s as') arg2 h1 h2 = slow-IsRem (block s as') arg2 h1 h2
