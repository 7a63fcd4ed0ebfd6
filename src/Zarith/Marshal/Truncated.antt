-- ===== src/Zarith/Marshal/Truncated.antt =====
-- The count of bytes of an integer of 2 ^ 29 limbs or more does not fit in the 4 bytes of the wire.
use ppx_universe.Base.{
  ℕ, ◌+◌, ◌-◌, ◌*◌, ◌/◌, ◌%◌, ◌^◌, ◌≤◌, ◌<◌, ◌≡◌, ◌↔◌, List, ◌++◌, Bool, length, length-append,
  length-take, arith,
}
use ppx_universe.NatStubs.Marshal.{failwith, output}
use ppx_universe.Zarith.{Z, z_arg, reduced_size}
use ppx_universe.Zarith.Marshal.{
  Intext, serialize_limbs, ml_z_custom_serialize, deserialize_limbs, deserialize_last,
  deserialize_number, Deserialized, ml_z_custom_deserialize,
}
use ppx_universe.Zarith.Marshal.Sizes.{length-deserialize_limbs, length-deserialize_last}
use ppx_universe.Zarith.Marshal.RoundTrip.{
  wire, as_read, ml_z_custom_serialize-output, ml_z_custom_deserialize-wire,
}

length-deserialize_number :
    (io : Intext) (szw sz : ℕ) (input : List ℕ)
    → length (deserialize_number io szw sz input).0 ≤ szw - 1 + 1
unfolding deserialize_number
length-deserialize_number io szw sz input =
    let r = deserialize_limbs io (szw - 1) input in
    let last = deserialize_last io (sz - (szw - 1) * 8) r.1 in
    omega (
      arith,
      length-append r.0 last.0,
      length-deserialize_limbs io (szw - 1) input,
      length-deserialize_last io (sz - (szw - 1) * 8) r.1,
    )

length-as_read :
    (io : Intext) (sign : Bool) (szw nb : ℕ) (input : List ℕ)
    → length (z_arg (as_read io sign szw nb input).z).limbs ≤ szw - 1 + 1
unfolding z_arg
length-as_read io sign szw nb input =
    let d = deserialize_number io szw nb input in
    omega (
      arith,
      length-take (reduced_size d.0 (length d.0)) d.0,
      length-deserialize_number io szw nb input,
    )

-- What is announced in `output` is more than what is read back.
abbrev pub IsTruncated : Z → ℕ → Deserialized → Type 0
IsTruncated v size r = (length (z_arg r.z).limbs < length (z_arg v).limbs) × (r.size < size)

-- For functions of caml/intext.h that read back what they wrote, an integer of at least 2 ^ 29 and
-- fewer than 2 ^ 32 limbs is written without an error, but ml_z_custom_deserialize makes from
-- these bytes a block of fewer limbs and returns a smaller size than was announced.
pub ml_z_custom_deserialize-IsTruncated :
    (io : Intext) (v : Z)
    → 2 ^ 29 ≤ length (z_arg v).limbs
    → length (z_arg v).limbs < 2 ^ 32
    → let n = length (z_arg v).limbs in
      (bytes : List ℕ) × (ml_z_custom_serialize io v ≡ output bytes (4 + n * 8) (8 + n * 8))
      × ((rest : List ℕ) → IsTruncated v (8 + n * 8) (ml_z_custom_deserialize io (bytes ++ rest)))
ml_z_custom_deserialize-IsTruncated io v many few =
    let a = z_arg v in
    let nb = length a.limbs * 8 % 2 ^ 32 in
    let szw = (nb + 7) / 8 % 2 ^ 32 in
    let less : szw < 2 ^ 29 = omega arith in
    (
      wire io a.negative nb a.limbs,
      ml_z_custom_serialize-output io v few,
      λ rest. rw (ml_z_custom_deserialize-wire io a.negative nb a.limbs rest (omega arith)) (
        omega (arith, length-as_read io a.negative szw nb (serialize_limbs io a.limbs ++ rest)),
        omega arith,
      ),
    )

-- Below 2 ^ 29 limbs the wire is whole; ml_z_custom_serialize refuses only 2 ^ 32 and more.
ml_z_custom_serialize-failwith :
    (io : Intext) (v : Z)
    → (ml_z_custom_serialize io v ≡ failwith) ↔ (2 ^ 32 ≤ length (z_arg v).limbs)
unfolding ml_z_custom_serialize
ml_z_custom_serialize-failwith io v = (λ e. ground arith, λ p. ground arith)
