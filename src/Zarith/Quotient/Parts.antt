-- ===== src/Zarith/Quotient/Parts.antt =====
-- What GMP documents of mpn_tdiv_qr, and what is a quotient and a remainder of integers.
use ppx_universe.Base.{
  ℕ, ◌+◌, ◌*◌, ◌≤◌, ◌<◌, ◌≡◌, List, Bool, true, false, not, length, Option, none, some, arith,
}
use ppx_universe.Bng.Number.{IsNumber, value}
use ppx_universe.Zarith.{Z, Arg, z_arg, xor_sign}
use ppx_universe.Zarith.Values.{signed, z_plus, z_minus, IsZ, IsSigned}
use ppx_universe.Zarith.Limbs.{IsNonzero}
use ppx_universe.Zarith.Quotient.{MpnTdivQr}

-- The lengths and the top limb that GMP asks for, and what it gives.
abbrev pub IsMpnTdivQr : MpnTdivQr → Type 0
IsMpnTdivQr mpn_tdiv_qr =
    (a b : List ℕ)
    → IsNumber a
    → IsNonzero b
    → length b ≤ length a
    → let r = mpn_tdiv_qr a b in
      IsNumber r.0
      × IsNumber r.1
      × (value a ≡ value r.0 * value b + value r.1)
      × (value r.1 < value b)

-- p - m is (d - n) times qp - qm and rp - rm, which is nearer to 0 than d - n and not of the sign
-- opposite to p - m.
abbrev pub IsTruncated : ℕ → ℕ → ℕ → ℕ → ℕ → ℕ → ℕ → ℕ → Type 0
IsTruncated p m d n qp qm rp rm =
    (p + (qp * n + qm * d) + rm ≡ m + (qp * d + qm * n) + rp)
    × (rp + rm < d + n)
    × (rp ≤ p)
    × (rm ≤ m)

abbrev pub IsZero : Z → Type 0
IsZero z = (z_plus z ≡ 0) × (z_minus z ≡ 0)

abbrev pub IsQuotientOf : Z → Z → ℕ → ℕ → ℕ → ℕ → Type 0
IsQuotientOf arg1 arg2 = IsTruncated (z_plus arg1) (z_minus arg1) (z_plus arg2) (z_minus arg2)

-- The quotient and the remainder, or Division_by_zero.
abbrev pub IsDivRem : Z → Z → Option (Z × Z) → Type 0
IsDivRem arg1 arg2 none = IsZero arg2
IsDivRem arg1 arg2 (some (q, r)) =
    IsZ q × IsZ r × IsQuotientOf arg1 arg2 (z_plus q) (z_minus q) (z_plus r) (z_minus r)

abbrev pub IsDiv : Z → Z → Option Z → Type 0
IsDiv arg1 arg2 none = IsZero arg2
IsDiv arg1 arg2 (some q) =
    IsZ q × (rp : ℕ) × (rm : ℕ) × IsQuotientOf arg1 arg2 (z_plus q) (z_minus q) rp rm

abbrev pub IsRem : Z → Z → Option Z → Type 0
IsRem arg1 arg2 none = IsZero arg2
IsRem arg1 arg2 (some r) =
    IsZ r × (qp : ℕ) × (qm : ℕ) × IsQuotientOf arg1 arg2 qp qm (z_plus r) (z_minus r)

signed-IsTruncated :
    (s t : Bool) (x y k l : ℕ)
    → x ≡ k * y + l
    → l < y
    → IsTruncated
        (signed (not s) x)
        (signed s x)
        (signed (not t) y)
        (signed t y)
        (signed (not (xor_sign s t)) k)
        (signed (xor_sign s t) k)
        (signed (not s) l)
        (signed s l)
signed-IsTruncated true true x y k l e h = (omega arith, omega arith, omega arith, omega arith)
signed-IsTruncated true false x y k l e h = (omega arith, omega arith, omega arith, omega arith)
signed-IsTruncated false true x y k l e h = (omega arith, omega arith, omega arith, omega arith)
signed-IsTruncated false false x y k l e h = (omega arith, omega arith, omega arith, omega arith)

-- The numbers of the quotient and of the remainder.
pub record IsParts (a b : Arg) (k l : ℕ) : Type 0 where
  pub total : value a.limbs ≡ k * value b.limbs + l
  pub below : l < value b.limbs

module _ (arg1 arg2 : Z) (k l : ℕ) where
  pub parts-IsQuotientOf :
      IsParts (z_arg arg1) (z_arg arg2) k l
      → let s = (z_arg arg1).negative in
        let d = xor_sign s (z_arg arg2).negative in
        IsQuotientOf arg1 arg2 (signed (not d) k) (signed d k) (signed (not s) l) (signed s l)
  unfolding z_plus z_minus
  parts-IsQuotientOf h =
      signed-IsTruncated (z_arg arg1).negative (z_arg arg2).negative (value (z_arg arg1).limbs)
        (value (z_arg arg2).limbs) k l h.total h.below

  pub parts-IsDivRem :
      (q r : Z)
      → IsParts (z_arg arg1) (z_arg arg2) k l
      → IsSigned (xor_sign (z_arg arg1).negative (z_arg arg2).negative) k q
      → IsSigned (z_arg arg1).negative l r
      → IsDivRem arg1 arg2 (some (q, r))
  parts-IsDivRem q r h hq hr =
      (hq.valid, hr.valid, rw (hq.plus, hq.minus, hr.plus, hr.minus) (parts-IsQuotientOf h))

  pub parts-IsDiv :
      (q : Z)
      → IsParts (z_arg arg1) (z_arg arg2) k l
      → IsSigned (xor_sign (z_arg arg1).negative (z_arg arg2).negative) k q
      → IsDiv arg1 arg2 (some q)
  parts-IsDiv q h hq = (
    hq.valid,
    signed (not (z_arg arg1).negative) l,
    signed (z_arg arg1).negative l,
    rw (hq.plus, hq.minus) (parts-IsQuotientOf h),
  )

  pub parts-IsRem :
      (r : Z)
      → IsParts (z_arg arg1) (z_arg arg2) k l
      → IsSigned (z_arg arg1).negative l r
      → IsRem arg1 arg2 (some r)
  parts-IsRem r h hr = (
    hr.valid,
    signed (not (xor_sign (z_arg arg1).negative (z_arg arg2).negative)) k,
    signed (xor_sign (z_arg arg1).negative (z_arg arg2).negative) k,
    rw (hr.plus, hr.minus) (parts-IsQuotientOf h),
  )
