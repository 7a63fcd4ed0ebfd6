-- ===== src/Zarith/Quotient.antt =====
-- ml_z_tdiv_qr, ml_z_div_rem, ml_z_div and ml_z_rem of Zarith/caml_z.c. mpn_tdiv_qr of GMP is a
-- parameter.
pub mod Words
pub mod Parts
pub mod Native
pub mod Exact
mod Tests
use ppx_universe.Base.{
  ℕ, ◌+◌, ◌-◌, ◌/◌, ◌%◌, ◌^◌, List, Bool, ◌&&◌, if◌then◌else◌, ◌==◌, leb, length, Option, none,
  some,
}
use ppx_universe.Mlvalues.{long_val, val_long}
use ppx_universe.Zarith.{
  Z, long, block, z_arg, is_negative, negated, xor_sign, z_fits_int, ml_z_reduce,
}

-- The word of a number with a sign, and the number of a word.
abbrev pub word : Bool → ℕ → ℕ
word s x = if s then negated x else x

abbrev pub magnitude : ℕ → ℕ
magnitude w = word (is_negative w) w

-- `/` and `%` of C on words of 64 bits: towards 0, the remainder with the sign of the dividend.
abbrev pub signed_div : ℕ → ℕ → ℕ
signed_div w v = word (xor_sign (is_negative w) (is_negative v)) (magnitude w / magnitude v)

abbrev pub signed_rem : ℕ → ℕ → ℕ
signed_rem w v = word (is_negative w) (magnitude w % magnitude v)

-- The quotient and the remainder that mpn_tdiv_qr leaves.
abbrev pub MpnTdivQr : Type 0
MpnTdivQr = List ℕ → List ℕ → List ℕ × List ℕ

-- Division_by_zero is none.
unfoldable pub ml_z_tdiv_qr : MpnTdivQr → Z → Z → Option (Z × Z)
unfolding z_arg ml_z_reduce
ml_z_tdiv_qr mpn_tdiv_qr arg1 arg2 =
    let a = z_arg arg1 in
    let b = z_arg arg2 in
    let r = mpn_tdiv_qr a.limbs b.limbs in
    if length b.limbs == 0
    then none
    else if leb (length b.limbs) (length a.limbs)
    then some (ml_z_reduce r.0 (xor_sign a.negative b.negative), ml_z_reduce r.1 a.negative)
    else some (long 0, arg1)

unfoldable pub ml_z_div_rem : MpnTdivQr → Z → Z → Option (Z × Z)
unfolding ml_z_tdiv_qr long_val val_long
ml_z_div_rem mpn_tdiv_qr (long a) (long b) =
    let q = signed_div (long_val a) (long_val b) in
    let r = signed_rem (long_val a) (long_val b) in
    if long_val b == 0
    then none
    else if z_fits_int q && z_fits_int r
    then some (long (val_long q), long (val_long r))
    else ml_z_tdiv_qr mpn_tdiv_qr (long a) (long b)
ml_z_div_rem mpn_tdiv_qr (long a) (block t bs) = ml_z_tdiv_qr mpn_tdiv_qr (long a) (block t bs)
ml_z_div_rem mpn_tdiv_qr (block s as') arg2 = ml_z_tdiv_qr mpn_tdiv_qr (block s as') arg2

abbrev pub first : Option (Z × Z) → Option Z
first none = none
first (some p) = some p.0

abbrev pub second : Option (Z × Z) → Option Z
second none = none
second (some p) = some p.1

unfoldable pub ml_z_div : MpnTdivQr → Z → Z → Option Z
unfolding ml_z_tdiv_qr long_val val_long
ml_z_div mpn_tdiv_qr (long a) (long b) =
    let q = signed_div (long_val a) (long_val b) in
    if long_val b == 0
    then none
    else if z_fits_int q
    then some (long (val_long q))
    else first (ml_z_tdiv_qr mpn_tdiv_qr (long a) (long b))
ml_z_div mpn_tdiv_qr (long a) (block t bs) = first (ml_z_tdiv_qr mpn_tdiv_qr (long a) (block t bs))
ml_z_div mpn_tdiv_qr (block s as') arg2 = first (ml_z_tdiv_qr mpn_tdiv_qr (block s as') arg2)

unfoldable pub ml_z_rem : MpnTdivQr → Z → Z → Option Z
unfolding ml_z_tdiv_qr long_val val_long
ml_z_rem mpn_tdiv_qr (long a) (long b) =
    let r = signed_rem (long_val a) (long_val b) in
    if long_val b == 0
    then none
    else if z_fits_int r
    then some (long (val_long r))
    else second (ml_z_tdiv_qr mpn_tdiv_qr (long a) (long b))
ml_z_rem mpn_tdiv_qr (long a) (block t bs) = second (ml_z_tdiv_qr mpn_tdiv_qr (long a) (block t bs))
ml_z_rem mpn_tdiv_qr (block s as') arg2 = second (ml_z_tdiv_qr mpn_tdiv_qr (block s as') arg2)
