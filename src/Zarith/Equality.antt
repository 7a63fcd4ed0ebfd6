-- ===== src/Zarith/Equality.antt =====
-- ml_z_equal, ml_z_hash, ml_z_to_int and ml_z_fits_int of Zarith/caml_z.c. caml_hash_mix_uint32 of
-- the OCaml runtime is a parameter.
pub mod Unique
pub mod Exact
use ppx_universe.Base.{
  ℕ, ◌+◌, ◌/◌, ◌%◌, ◌^◌, List, [], ◌∷◌, Bool, true, false, not, ◌&&◌, if◌then◌else◌, ◌==◌, leb, ltb,
  Option, none, some, length,
}
use ppx_universe.Mlvalues.{val_long}
use ppx_universe.Zarith.{Z, long, block, Arg, z_arg, same_sign, negated}

-- The loop over arrays of one size.
unfoldable pub equal_limbs : List ℕ → List ℕ → Bool
equal_limbs [] bs = true
equal_limbs (a ∷ as') [] = true
equal_limbs (a ∷ as') (b ∷ bs) = if a == b then equal_limbs as' bs else false

unfoldable pub equal_args : Arg → Arg → Bool
unfolding equal_limbs
equal_args a b =
    if same_sign a.negative b.negative && (length a.limbs == length b.limbs)
    then equal_limbs a.limbs b.limbs
    else false

unfoldable pub ml_z_equal : Z → Z → Bool
unfolding equal_args z_arg
ml_z_equal (long a) (long b) = a == b
ml_z_equal (long a) (block t bs) = equal_args (z_arg (long a)) (z_arg (block t bs))
ml_z_equal (block s as') arg2 = equal_args (z_arg (block s as')) (z_arg arg2)

unfoldable pub hash_limbs : (ℕ → ℕ → ℕ) → List ℕ → ℕ → ℕ
hash_limbs mix [] acc = acc
hash_limbs mix (x ∷ xs) acc = hash_limbs mix xs (mix (mix acc (x % 2 ^ 32)) (x / 2 ^ 32))

-- ml_z_custom_hash and ml_z_hash: 32 bits.
unfoldable pub ml_z_hash : (ℕ → ℕ → ℕ) → Z → ℕ
unfolding hash_limbs z_arg
ml_z_hash mix v =
    let acc = hash_limbs mix (z_arg v).limbs 0 in
    if (z_arg v).negative then (acc + 1) % 2 ^ 32 else acc

-- Overflow is none. Z_HI_INT is 2 ^ 62.
abbrev pub to_int_limb : Bool → ℕ → Option ℕ
to_int_limb true x = if ltb (2 ^ 62) x then none else some (val_long (negated x))
to_int_limb false x = if leb (2 ^ 62) x then none else some (val_long x)

unfoldable pub ml_z_to_int : Z → Option ℕ
unfolding val_long
ml_z_to_int (long n) = some n
ml_z_to_int (block sign []) = some 0
ml_z_to_int (block sign (x ∷ [])) = to_int_limb sign x
ml_z_to_int (block sign (x ∷ y ∷ limbs)) = none

abbrev pub fits_int_limb : Bool → ℕ → Bool
fits_int_limb true x = not (ltb (2 ^ 62) x)
fits_int_limb false x = not (leb (2 ^ 62) x)

unfoldable pub ml_z_fits_int : Z → Bool
ml_z_fits_int (long n) = true
ml_z_fits_int (block sign []) = true
ml_z_fits_int (block sign (x ∷ [])) = fits_int_limb sign x
ml_z_fits_int (block sign (x ∷ y ∷ limbs)) = false
