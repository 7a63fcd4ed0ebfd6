-- ===== src/Zarith/Marshal/RoundTrip.antt =====
-- Integers survive the wire.
use ppx_universe.Base.{
  ℕ, suc, ◌+◌, ◌-◌, ◌*◌, ◌/◌, ◌%◌, ◌^◌, ◌≤◌, ◌<◌, ◌≡◌, inl, inr, refl, ap, ◌∙◌, List, [], ◌∷◌, ◌++◌,
  Bool, true, false, not, if◌then◌else◌, ◌==◌, leb, length, take, take_all, arith,
}
use mathlib.Core.List.{append_assoc}
use ppx_universe.Bng.Number.{value, base_pow}
use ppx_universe.NatStubs.Marshal.{output}
use ppx_universe.Zarith.{Z, block, z_arg, reduced_size}
use ppx_universe.Zarith.Values.{IsZ}
use ppx_universe.Zarith.Limbs.{IsLimbs, z_arg-IsLimbs}
use ppx_universe.Zarith.Marshal.{
  Intext, serialize_limbs, ml_z_custom_serialize, deserialize_number, Deserialized,
  ml_z_custom_deserialize,
}
use ppx_universe.Zarith.Marshal.Sizes.{deserialize_number-serialize_limbs, reduced_size-top}

-- The sign, the count of bytes and the limbs as they lie on the wire.
abbrev pub wire : Intext → Bool → ℕ → List ℕ → List ℕ
wire io sign nb limbs =
    io.serialize_int_1 (if sign then 1 else 0)
    ++ (io.serialize_int_4 nb ++ serialize_limbs io limbs)

-- What is read for szw limbs in nb bytes.
abbrev pub as_read : Intext → Bool → ℕ → ℕ → List ℕ → Deserialized
as_read io sign szw nb input =
    let d = deserialize_number io szw nb input in
    record {
      z = block sign (take (reduced_size d.0 (length d.0)) d.0);
      size = (szw + 1) * 8;
      rest = d.1;
    }

sign_read : (sign : Bool) → not ((if sign then 1 else 0) % 2 ^ 8 == 0) ≡ sign
sign_read true = refl
sign_read false = refl

sign-lt : (sign : Bool) → (if sign then 1 else 0) < 2 ^ 32
sign-lt true = omega arith
sign-lt false = omega arith

-- The reader takes the sign and the count of bytes off the wire.
pub ml_z_custom_deserialize-wire :
    (io : Intext) (sign : Bool) (nb : ℕ) (limbs rest : List ℕ)
    → nb < 2 ^ 32
    → ml_z_custom_deserialize io (wire io sign nb limbs ++ rest)
      ≡ as_read io sign ((nb + 7) / 8 % 2 ^ 32) nb (serialize_limbs io limbs ++ rest)
unfolding ml_z_custom_deserialize
ml_z_custom_deserialize-wire io sign nb limbs rest h =
    let s = io.serialize_int_1 (if sign then 1 else 0) in
    let c = io.serialize_int_4 nb in
    let l = serialize_limbs io limbs in
    let join : (s ++ (c ++ l)) ++ rest ≡ s ++ (c ++ (l ++ rest)) =
      append_assoc s (c ++ l) rest ∙ ap (λ (t : List ℕ). s ++ t) (append_assoc c l rest) in
    let first = io.int_1 (if sign then 1 else 0) (c ++ (l ++ rest)) (sign-lt sign) in
    let second = io.int_4 nb (l ++ rest) h in rw (join, first, second, sign_read sign) refl

-- Below 2 ^ 32 limbs, the bytes and both sizes; the count on the wire is one of 4 bytes.
pub ml_z_custom_serialize-output :
    (io : Intext) (v : Z)
    → let a = z_arg v in
      length a.limbs < 2 ^ 32
      → ml_z_custom_serialize io v
        ≡ output
            (wire io a.negative (length a.limbs * 8 % 2 ^ 32) a.limbs)
            (4 + length a.limbs * 8)
            (8 + length a.limbs * 8)
unfolding ml_z_custom_serialize
ml_z_custom_serialize-output io v h =
    let n = length (z_arg v).limbs in
    let short : leb (2 ^ 32) n ≡ false = ground arith in
    let small : 4 * (1 + (n * 8 + 3) / 4) ≡ 4 + n * 8 = omega arith in
    let large : 8 * (1 + (n * 8 + 7) / 8) ≡ 8 + n * 8 = omega arith in rw (short, small, large) refl

kept : (limbs : List ℕ) → IsLimbs limbs → take (reduced_size limbs (length limbs)) limbs ≡ limbs
unfolding reduced_size
kept [] h = refl
kept (x ∷ xs) (number, top) =
    let len : length (x ∷ xs) - 1 ≡ length xs = omega arith in
    let big : base_pow (length xs) ≤ value (x ∷ xs) = elim top [
      | inl e ↦ absurd (omega arith)
      | inr t ↦ rw len at t
    ] in
    rw (reduced_size-top (x ∷ xs) (length xs) number refl big)
      (take_all (suc (length xs)) (x ∷ xs) (omega arith))

-- For functions of caml/intext.h that read back what they wrote, a valid integer of fewer than 2 ^
-- 29 limbs is written with 4 and with 8 bytes more than its limbs take as the sizes on machines of
-- 32 and of 64 bits, and ml_z_custom_deserialize makes from these bytes, whatever follows them, a
-- block of the same sign and limbs, returns the size for 64 bits, and leaves what follows.
pub ml_z_custom_deserialize-ml_z_custom_serialize :
    (io : Intext) (v : Z)
    → IsZ v
    → length (z_arg v).limbs < 2 ^ 29
    → let a = z_arg v in
      (bytes : List ℕ) × (ml_z_custom_serialize io v
        ≡ output bytes (4 + length a.limbs * 8) (8 + length a.limbs * 8))
      × ((rest : List ℕ)
          → ml_z_custom_deserialize io (bytes ++ rest)
            ≡ record { z = block a.negative a.limbs; size = 8 + length a.limbs * 8; rest = rest })
ml_z_custom_deserialize-ml_z_custom_serialize io v h few =
    let a = z_arg v in
    let n = length a.limbs in
    let limbs = z_arg-IsLimbs v h in
    let count : n * 8 % 2 ^ 32 ≡ n * 8 = omega arith in
    let words : (n * 8 + 7) / 8 % 2 ^ 32 ≡ n = omega arith in
    let size : (n + 1) * 8 ≡ 8 + n * 8 = omega arith in
    (
      wire io a.negative (n * 8) a.limbs,
      rw count at (ml_z_custom_serialize-output io v (omega arith)),
      λ rest.
          ml_z_custom_deserialize-wire io a.negative (n * 8) a.limbs rest (omega arith)
          ∙ rw
              (
                words,
                deserialize_number-serialize_limbs io a.limbs rest limbs.0,
                kept a.limbs limbs,
                size,
              )
              refl,
    )
