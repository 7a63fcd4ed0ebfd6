-- ===== src/Zarith/Exact.antt =====
-- ml_z_add and ml_z_sub, the path over native integers included.
use ppx_universe.Base.{
  ℕ, ◌+◌, ◌-◌, ◌%◌, ◌^◌, ◌≤◌, ◌<◌, ◌≡◌, ◌⊎◌, inl, inr, refl, ap, List, [], ◌∷◌, Bool, true, false,
  not, ◌==◌, leb, ltb, length, arith, Bool-cases,
}
use ppx_universe.Mlvalues.{long_val, val_long}
use ppx_universe.Bng.Number.{value}
use ppx_universe.Zarith.{
  Z, long, block, Mpn, z_max_int, z_fits_int, z_arg, ml_z_reduce, ml_z_addsub, ml_z_add, ml_z_sub,
}
use ppx_universe.Zarith.Values.{
  signed, z_plus, z_minus, IsZ, long-plus, long-minus, ml_z_reduce_lem, either,
}
use ppx_universe.Zarith.Limbs.{IsMpn, z_arg-IsLimbs, IsLimbs-IsNonzero}
use ppx_universe.Zarith.Sums.{IsSum, addsub_limbs-IsSum}

pub empty : (l : List ℕ) → length l ≡ 0 → value l ≡ 0
empty [] h = refl
empty (x ∷ xs) h = absurd (omega arith)

signed-zero : (s : Bool) (m : ℕ) → m ≡ 0 → signed s m ≡ 0
signed-zero true m h = h
signed-zero false m h = refl

not-not : (b : Bool) → not (not b) ≡ b
not-not true = refl
not-not false = refl

-- The integer that the second argument counts as.
abbrev pub q_of : Bool → Z → ℕ
q_of true z = z_minus z
q_of false z = z_plus z

flip-IsSum :
    (p m : ℕ) (t : Bool) (v : ℕ) (r : Z)
    → IsSum p m (signed (not (not t)) v) (signed (not t) v) r
    → IsSum p m (signed t v) (signed (not t) v) r
flip-IsSum p m true v r h = h
flip-IsSum p m false v r h = h

module _ (mpn : Mpn) (gmp : IsMpn mpn) where
  pub ml_z_addsub-IsSum :
      (z1 z2 : Z) (sign : Bool)
      → IsZ z1
      → IsZ z2
      → IsSum
          (z_plus z1)
          (z_minus z1)
          (q_of sign z2)
          (q_of (not sign) z2)
          (ml_z_addsub mpn z1 z2 sign)
  unfolding ml_z_addsub z_plus z_minus
  ml_z_addsub-IsSum z1 z2 false h1 h2 =
      let a = z_arg z1 in
      let b = z_arg z2 in
      let P = IsSum (z_plus z1) (z_minus z1) (z_plus z2) (z_minus z2) in
      either P (length b.limbs == 0) z1 _
        (λ e.
          let v = empty b.limbs (ground arith) in
          (
            h1,
            omega (
              arith,
              signed-zero b.negative (value b.limbs) v,
              signed-zero (not b.negative) (value b.limbs) v,
            ),
          ))
        (λ e.
          either P (length a.limbs == 0) z2 _
            (λ e'.
              let v = empty a.limbs (ground arith) in
              (
                h2,
                omega (
                  arith,
                  signed-zero a.negative (value a.limbs) v,
                  signed-zero (not a.negative) (value a.limbs) v,
                ),
              ))
            (λ e'.
              addsub_limbs-IsSum mpn gmp a.negative b.negative a.limbs b.limbs
                (IsLimbs-IsNonzero a.limbs (z_arg-IsLimbs z1 h1) e')
                (IsLimbs-IsNonzero b.limbs (z_arg-IsLimbs z2 h2) e)))
  ml_z_addsub-IsSum z1 z2 true h1 h2 =
      let a = z_arg z1 in
      let b = z_arg z2 in
      let P = IsSum (z_plus z1) (z_minus z1) (z_minus z2) (z_plus z2) in
      either P (length b.limbs == 0) z1 _
        (λ e.
          let v = empty b.limbs (ground arith) in
          (
            h1,
            omega (
              arith,
              signed-zero b.negative (value b.limbs) v,
              signed-zero (not b.negative) (value b.limbs) v,
            ),
          ))
        (λ e.
          either P (length a.limbs == 0) (ml_z_reduce b.limbs (not b.negative)) _
            (λ e'.
              let v = empty a.limbs (ground arith) in
              let r = ml_z_reduce_lem b.limbs (not b.negative) (z_arg-IsLimbs z2 h2).0 in
              let n = ap (λ s. signed s (value b.limbs)) (not-not b.negative) in
              (
                r.valid,
                omega (
                  arith,
                  r.plus,
                  r.minus,
                  n,
                  signed-zero a.negative (value a.limbs) v,
                  signed-zero (not a.negative) (value a.limbs) v,
                ),
              ))
            (λ e'. flip-IsSum (z_plus z1) (z_minus z1) b.negative (value b.limbs) _ (
              addsub_limbs-IsSum mpn gmp a.negative (not b.negative) a.limbs b.limbs
                (IsLimbs-IsNonzero a.limbs (z_arg-IsLimbs z1 h1) e')
                (IsLimbs-IsNonzero b.limbs (z_arg-IsLimbs z2 h2) e))))

-- The word and the integer of an OCaml integer, by its sign.
abbrev pub IsWord : ℕ → ℕ → ℕ → ℕ → Type 0
IsWord n w p m =
    ((n < 2 ^ 62) × (w ≡ n) × (p ≡ n) × (m ≡ 0))
    ⊎ ((2 ^ 62 ≤ n) × (w ≡ n + 2 ^ 63) × (p ≡ 0) × (m + n ≡ 2 ^ 63))

pub long-IsWord : (n : ℕ) → n < 2 ^ 63 → IsWord n (long_val n) (z_plus (long n)) (z_minus (long n))
unfolding long_val
long-IsWord n h =
    let p = long-plus n h in
    let m = long-minus n h in
    elim (Bool-cases (ltb n (2 ^ 62))) [
      | inl e ↦ inl (ground arith, ground arith, ground arith, ground arith)
      | inr e ↦ inr (ground arith, ground arith, ground arith, ground arith)
    ]

fits-cases : (v : ℕ) → z_fits_int v ≡ true → (2 ^ 64 - 2 ^ 62 ≤ v) ⊎ (v ≤ z_max_int)
fits-cases v h = elim (Bool-cases (leb (2 ^ 64 - 2 ^ 62) v)) [
  | inl e ↦ inl (ground arith)
  | inr e ↦ inr (ground arith)
]

sum_words :
    (a b wa wb wr pa ma pb mb pr mr : ℕ)
    → IsWord a wa pa ma
    → IsWord b wb pb mb
    → (2 ^ 64 - 2 ^ 62 ≤ (wa + wb) % 2 ^ 64) ⊎ ((wa + wb) % 2 ^ 64 ≤ z_max_int)
    → IsWord ((wa + wb) % 2 ^ 64 % 2 ^ 63) wr pr mr
    → a < 2 ^ 63
    → b < 2 ^ 63
    → pr + ma + mb ≡ mr + pa + pb
sum_words a b wa wb wr pa ma pb mb pr mr ha hb fits hr la lb = ground arith

difference_words :
    (a b wa wb wr pa ma pb mb pr mr : ℕ)
    → IsWord a wa pa ma
    → IsWord b wb pb mb
    → (2 ^ 64 - 2 ^ 62 ≤ (wa + 2 ^ 64 - wb) % 2 ^ 64) ⊎ ((wa + 2 ^ 64 - wb) % 2 ^ 64 ≤ z_max_int)
    → IsWord ((wa + 2 ^ 64 - wb) % 2 ^ 64 % 2 ^ 63) wr pr mr
    → a < 2 ^ 63
    → b < 2 ^ 63
    → pr + ma + pb ≡ mr + pa + mb
difference_words a b wa wb wr pa ma pb mb pr mr ha hb fits hr la lb = ground arith

-- The result of the path over native integers, or of the general one.
module _ (mpn : Mpn) (gmp : IsMpn mpn) where
  -- Over functions mpn_add, mpn_sub and mpn_cmp that compute what GMP documents, ml_z_add of two
  -- valid integers, unboxed or in blocks, is the unboxed integer or the block of the exact sum, with
  -- its top limb not 0 and above the greatest unboxed integer: no sum wraps around on the path over
  -- native integers.
  pub ml_z_add_lem :
      (arg1 arg2 : Z)
      → IsZ arg1
      → IsZ arg2
      → IsSum (z_plus arg1) (z_minus arg1) (z_plus arg2) (z_minus arg2) (ml_z_add mpn arg1 arg2)
  unfolding ml_z_add val_long
  ml_z_add_lem (long a) (long b) h1 h2 =
      let v = (long_val a + long_val b) % 2 ^ 64 in
      let bound : v % 2 ^ 63 < 2 ^ 63 = omega arith in
      either (IsSum (z_plus (long a)) (z_minus (long a)) (z_plus (long b)) (z_minus (long b)))
        (z_fits_int v) (long (v % 2 ^ 63)) _
        (λ fits. (
          bound,
          sum_words a b _ _ _ _ _ _ _ _ _ (long-IsWord a h1) (long-IsWord b h2) (fits-cases v fits)
              (long-IsWord (v % 2 ^ 63) bound) h1 h2,
        ))
        (λ _. ml_z_addsub-IsSum mpn gmp (long a) (long b) false h1 h2)
  ml_z_add_lem (long a) (block t bs) h1 h2 =
      ml_z_addsub-IsSum mpn gmp (long a) (block t bs) false h1 h2
  ml_z_add_lem (block s as') arg2 h1 h2 = ml_z_addsub-IsSum mpn gmp (block s as') arg2 false h1 h2

  -- Over functions mpn_add, mpn_sub and mpn_cmp that compute what GMP documents, ml_z_sub of two
  -- valid integers, unboxed or in blocks, is the unboxed integer or the block of the exact
  -- difference, with its top limb not 0 and above the greatest unboxed integer: no difference wraps
  -- around on the path over native integers.
  pub ml_z_sub_lem :
      (arg1 arg2 : Z)
      → IsZ arg1
      → IsZ arg2
      → IsSum (z_plus arg1) (z_minus arg1) (z_minus arg2) (z_plus arg2) (ml_z_sub mpn arg1 arg2)
  unfolding ml_z_sub val_long
  ml_z_sub_lem (long a) (long b) h1 h2 =
      let v = (long_val a + 2 ^ 64 - long_val b) % 2 ^ 64 in
      let bound : v % 2 ^ 63 < 2 ^ 63 = omega arith in
      either (IsSum (z_plus (long a)) (z_minus (long a)) (z_minus (long b)) (z_plus (long b)))
        (z_fits_int v) (long (v % 2 ^ 63)) _
        (λ fits. (
          bound,
          difference_words a b _ _ _ _ _ _ _ _ _ (long-IsWord a h1) (long-IsWord b h2)
              (fits-cases v fits) (long-IsWord (v % 2 ^ 63) bound) h1 h2,
        ))
        (λ _. ml_z_addsub-IsSum mpn gmp (long a) (long b) true h1 h2)
  ml_z_sub_lem (long a) (block t bs) h1 h2 =
      ml_z_addsub-IsSum mpn gmp (long a) (block t bs) true h1 h2
  ml_z_sub_lem (block s as') arg2 h1 h2 = ml_z_addsub-IsSum mpn gmp (block s as') arg2 true h1 h2
