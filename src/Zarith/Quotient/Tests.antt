-- ===== src/Zarith/Quotient/Tests.antt =====
-- Quotients of numbers in the place of mpn_tdiv_qr, and the theorem at one input.
use native.Mathlib.Nat.{mod-lt, div-le_self, div-add-mod'}
use ppx_universe.Base.{
  ℕ, zero, suc, ◌-◌, ◌*◌, ◌/◌, ◌%◌, ◌^◌, ◌<◌, ◌≡◌, refl, ap, List, [], ◌∷◌, true, false, length,
  some, arith,
}
use ppx_universe.Mlvalues.{long_val, val_long}
use ppx_universe.Bng.Digit.{base}
use ppx_universe.Bng.Number.{IsNumber, value, base_pow, value-lt-base_pow, base_pow-pos}
use ppx_universe.Zarith.{Z, long, block, z_arg, ml_z_reduce, reduced_size}
use ppx_universe.Zarith.Values.{IsZ}
use ppx_universe.Zarith.Quotient.{MpnTdivQr, ml_z_tdiv_qr, ml_z_div_rem}
use ppx_universe.Zarith.Quotient.Parts.{IsMpnTdivQr, IsDivRem}
use ppx_universe.Zarith.Quotient.Exact.{ml_z_div_rem_lem}

-- The lowest digits of a number.
abbrev digits : ℕ → ℕ → List ℕ
digits zero v = []
digits (suc n) v = v % base ∷ digits n (v / base)

digits_lem : (n v : ℕ) → v < base_pow n → IsNumber (digits n v) × (value (digits n v) ≡ v)
digits_lem zero v h = (tt, omega arith)
digits_lem (suc n) v h =
    let (number, total) = digits_lem n (v / base) (omega arith) in
    ((omega arith, number), omega (arith, total))

abbrev divide : MpnTdivQr
divide a b = (digits (length a) (value a / value b), digits (length b) (value a % value b))

divide-IsMpnTdivQr : IsMpnTdivQr divide
divide-IsMpnTdivQr a b ha (hb, pb, top) fits =
    let pos : 0 < value b = omega (arith, top, base_pow-pos (length b - 1)) in
    let below = mod-lt (value a) pos in
    let q_small = div-le_self (value a) (value b) in
    let (nq, tq) =
      digits_lem (length a) (value a / value b) (omega (arith, q_small, value-lt-base_pow a ha)) in
    let (nr, tr) =
      digits_lem (length b) (value a % value b) (omega (arith, below, value-lt-base_pow b hb)) in
    (
      nq,
      nr,
      omega (arith, ap (λ n. n * value b) tq, tr, div-add-mod' (value a) (value b)),
      omega (arith, tr, below),
    )

-- -(2 ^ 64 + 5), -2 ^ 62 and -1
abbrev large : Z
large = block true (5 ∷ 1 ∷ [])

abbrev least : Z
least = long (2 ^ 62)

abbrev minus_one : Z
minus_one = long (2 ^ 63 - 1)

large-IsZ : IsZ large
large-IsZ = ((omega arith, (omega arith, tt)), omega arith, omega arith)

-- The one quotient of OCaml integers that is none.
least_quotient : ml_z_div_rem divide least minus_one ≡ some (block false ((2 ^ 62) ∷ []), long 0)
unfolding ml_z_div_rem ml_z_tdiv_qr ml_z_reduce reduced_size z_arg long_val val_long
least_quotient = refl

ml_z_div_rem_lem_example : IsDivRem large least (ml_z_div_rem divide large least)
ml_z_div_rem_lem_example =
    ml_z_div_rem_lem divide divide-IsMpnTdivQr large least large-IsZ (omega arith)
