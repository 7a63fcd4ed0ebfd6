-- ===== src/Zarith/Marshal.antt =====
-- ml_z_custom_serialize and ml_z_custom_deserialize of Zarith/caml_z.c, without Z_PERFORM_CHECK. The
-- functions of caml/intext.h are a parameter: what they write and what they read back.
pub mod Sizes
pub mod RoundTrip
pub mod Truncated
mod Tests
use ppx_universe.Base.{
  ℕ, zero, suc, ◌+◌, ◌-◌, ◌*◌, ◌/◌, ◌%◌, ◌^◌, ◌<◌, ◌≡◌, List, [], ◌∷◌, ◌++◌, Bool, not,
  if◌then◌else◌, ◌==◌, leb, length, take,
}
use ppx_universe.NatStubs.Marshal.{Serialized, failwith, output}
use ppx_universe.Zarith.{Z, block, z_arg, reduced_size}

-- caml_serialize_int_1 takes an int and writes its low byte, caml_serialize_int_4 writes 4 bytes;
-- their readers take what was written off the front of the bytes.
pub record Intext : Type 0 where
  pub serialize_int_1 : ℕ → List ℕ
  pub serialize_int_4 : ℕ → List ℕ
  pub deserialize_uint_1 : List ℕ → ℕ × List ℕ
  pub deserialize_uint_4 : List ℕ → ℕ × List ℕ
  pub int_1 :
      (n : ℕ) (rest : List ℕ)
      → n < 2 ^ 32
      → deserialize_uint_1 (serialize_int_1 n ++ rest) ≡ (n % 2 ^ 8, rest)
  pub int_4 :
      (n : ℕ) (rest : List ℕ)
      → n < 2 ^ 32
      → deserialize_uint_4 (serialize_int_4 n ++ rest) ≡ (n, rest)

-- The lowest bytes of a limb, lowest byte first. The argument is converted to an int.
unfoldable pub serialize_bytes : Intext → ℕ → ℕ → List ℕ
serialize_bytes io zero x = []
serialize_bytes io (suc k) x = io.serialize_int_1 (x % 2 ^ 32) ++ serialize_bytes io k (x / 2 ^ 8)

unfoldable pub serialize_limbs : Intext → List ℕ → List ℕ
unfolding serialize_bytes
serialize_limbs io [] = []
serialize_limbs io (x ∷ xs) = serialize_bytes io 8 x ++ serialize_limbs io xs

unfoldable pub ml_z_custom_serialize : Intext → Z → Serialized
unfolding z_arg serialize_limbs
ml_z_custom_serialize io v =
    let size = length (z_arg v).limbs in
    let nb = size * 8 in
    if leb (2 ^ 32) size
    then failwith
    else output
        (io.serialize_int_1 (if (z_arg v).negative then 1 else 0)
          ++ (io.serialize_int_4 (nb % 2 ^ 32) ++ serialize_limbs io (z_arg v).limbs))
        (4 * (1 + (nb + 3) / 4)) (8 * (1 + (nb + 7) / 8))

-- The bytes of a limb; they have no bit in common, so that | is the sum.
unfoldable pub deserialize_bytes : Intext → ℕ → List ℕ → ℕ × List ℕ
deserialize_bytes io zero input = (0, input)
deserialize_bytes io (suc k) input =
    let low = io.deserialize_uint_1 input in
    let high = deserialize_bytes io k low.1 in (low.0 + 2 ^ 8 * high.0, high.1)

-- The loop over all limbs but the last.
unfoldable pub deserialize_limbs : Intext → ℕ → List ℕ → List ℕ × List ℕ
unfolding deserialize_bytes
deserialize_limbs io zero input = ([], input)
deserialize_limbs io (suc n) input =
    let x = deserialize_bytes io 8 input in
    let xs = deserialize_limbs io n x.1 in (x.0 ∷ xs.0, xs.1)

-- The last limb, of the sz bytes that are left, at most 8 of which are read.
unfoldable pub deserialize_last : Intext → ℕ → List ℕ → List ℕ × List ℕ
unfolding deserialize_bytes
deserialize_last io sz input =
    let x = deserialize_bytes io (if leb 8 sz then 8 else sz) input in
    if sz == 0 then ([], input) else (x.0 ∷ [], x.1)

-- Both, for szw limbs of sz bytes.
unfoldable pub deserialize_number : Intext → ℕ → ℕ → List ℕ → List ℕ × List ℕ
unfolding deserialize_limbs deserialize_last
deserialize_number io szw sz input =
    let xs = deserialize_limbs io (szw - 1) input in
    let x = deserialize_last io (sz - (szw - 1) * 8) xs.1 in (xs.0 ++ x.0, x.1)

-- The block, the size that is returned and the bytes behind it.
pub record Deserialized : Type 0 where
  pub z : Z
  pub size : ℕ
  pub rest : List ℕ

unfoldable pub ml_z_custom_deserialize : Intext → List ℕ → Deserialized
unfolding deserialize_number reduced_size
ml_z_custom_deserialize io input =
    let sign = io.deserialize_uint_1 input in
    let sz = io.deserialize_uint_4 sign.1 in
    let szw = (sz.0 + 7) / 8 % 2 ^ 32 in
    let d = deserialize_number io szw sz.0 sz.1 in
    record {
      z = block (not (sign.0 == 0)) (take (reduced_size d.0 (length d.0)) d.0);
      size = (szw + 1) * 8;
      rest = d.1;
    }
