-- ===== src/Zarith/Product.antt =====
-- ml_z_mul of Zarith/caml_z.c, without HAVE_NATIVE_mpn_mul_2. The products of GMP are a parameter.
pub mod Words
pub mod Parts
pub mod Exact
mod Tests
use ppx_universe.Base.{
  ℕ, ◌+◌, ◌-◌, ◌*◌, ◌%◌, ◌^◌, List, [], ◌∷◌, ◌++◌, Bool, ◌&&◌, ◌||◌, if◌then◌else◌, ◌==◌, leb, ltb,
  length, get_or,
}
use ppx_universe.Mlvalues.{long_val, val_long, tagged}
use ppx_universe.Bng.Number.{Carried}
use ppx_universe.Zarith.{Z, long, block, Arg, z_arg, xor_sign, with_carry, ml_z_reduce}

-- mpn_mul_1, with the limb that it returns, mpn_mul, mpn_mul_n and mpn_sqr.
pub record MpnProducts : Type 0 where
  pub mul_1 : List ℕ → ℕ → Carried
  pub mul : List ℕ → List ℕ → List ℕ
  pub mul_n : List ℕ → List ℕ → List ℕ
  pub sqr : List ℕ → List ℕ

-- Z_FITS_HINT of the word of an OCaml integer.
unfoldable pub z_fits_hint : ℕ → Bool
unfolding tagged
z_fits_hint n = leb (2 ^ 64 - (2 ^ 30 - 1)) (tagged n) || leb (tagged n) (2 ^ 30 - 1)

-- Two numbers that are not 0. `shared` tells whether the pointers to the limbs are the same.
unfoldable pub mul_limbs : MpnProducts → Bool → Arg → Arg → Z
unfolding ml_z_reduce
mul_limbs mpn shared a b =
    let sign = xor_sign a.negative b.negative in
    if length b.limbs == 1
    then with_carry (mpn.mul_1 a.limbs (get_or b.limbs 0 0)) sign
    else if length a.limbs == 1
    then with_carry (mpn.mul_1 b.limbs (get_or a.limbs 0 0)) sign
    else if ltb (length b.limbs) (length a.limbs)
    then ml_z_reduce (mpn.mul a.limbs b.limbs) sign
    else if ltb (length a.limbs) (length b.limbs)
    then ml_z_reduce (mpn.mul b.limbs a.limbs) sign
    else if shared
    then ml_z_reduce (mpn.sqr a.limbs) sign
    else ml_z_reduce (mpn.mul_n a.limbs b.limbs) sign

unfoldable pub mul_args : MpnProducts → Bool → Arg → Arg → Z
unfolding mul_limbs
mul_args mpn shared a b =
    if (length a.limbs == 0) || (length b.limbs == 0) then long 0 else mul_limbs mpn shared a b

unfoldable pub ml_z_mul : MpnProducts → Bool → Z → Z → Z
unfolding mul_args z_arg long_val val_long z_fits_hint
ml_z_mul mpn shared (long a) (long b) =
    if (long_val a == 0) || (long_val b == 0)
    then long 0
    else if z_fits_hint a && z_fits_hint b
    then long (val_long (long_val a * long_val b % 2 ^ 64))
    else mul_args mpn shared (z_arg (long a)) (z_arg (long b))
ml_z_mul mpn shared (long a) (block t bs) =
    mul_args mpn shared (z_arg (long a)) (z_arg (block t bs))
ml_z_mul mpn shared (block s as') arg2 = mul_args mpn shared (z_arg (block s as')) (z_arg arg2)
