-- ===== src/Zarith/Marshal/Tests.antt =====
-- Bytes in the place of the functions of caml/intext.h, and the theorems at one integer each.
use ppx_universe.Base.{
  ℕ, zero, suc, ◌+◌, ◌*◌, ◌/◌, ◌%◌, ◌^◌, ◌<◌, ◌≡◌, refl, ap, List, [], ◌∷◌, ◌++◌, true, false,
  length, arith,
}
use ppx_universe.NatStubs.Marshal.{output}
use ppx_universe.Zarith.{Z, block, z_arg}
use ppx_universe.Zarith.Values.{IsZ}
use ppx_universe.Zarith.Marshal.{Intext, ml_z_custom_serialize, ml_z_custom_deserialize}
use ppx_universe.Zarith.Marshal.RoundTrip.{ml_z_custom_deserialize-ml_z_custom_serialize}
use ppx_universe.Zarith.Marshal.Truncated.{IsTruncated, ml_z_custom_deserialize-IsTruncated}

-- The lowest bytes of a number, highest byte first as in caml/intext.h.
abbrev put_4 : ℕ → List ℕ
put_4 n = n / 2 ^ 24 % 2 ^ 8 ∷ n / 2 ^ 16 % 2 ^ 8 ∷ n / 2 ^ 8 % 2 ^ 8 ∷ n % 2 ^ 8 ∷ []

abbrev get_1 : List ℕ → ℕ × List ℕ
get_1 [] = (0, [])
get_1 (a ∷ input) = (a, input)

abbrev get_4 : List ℕ → ℕ × List ℕ
get_4 (a ∷ b ∷ c ∷ d ∷ input) = (2 ^ 24 * a + 2 ^ 16 * b + 2 ^ 8 * c + d, input)
get_4 input = (0, [])

get_4-put_4 : (n : ℕ) (rest : List ℕ) → n < 2 ^ 32 → get_4 (put_4 n ++ rest) ≡ (n, rest)
get_4-put_4 n rest h = ap (λ (m : ℕ). (m, rest)) (omega arith)

abbrev bytes_intext : Intext
bytes_intext = record {
  serialize_int_1 = λ n. n % 2 ^ 8 ∷ [];
  serialize_int_4 = put_4;
  deserialize_uint_1 = get_1;
  deserialize_uint_4 = get_4;
  int_1 = λ n rest h. refl;
  int_4 = get_4-put_4;
}

-- -(2 ^ 64 + 5)
abbrev large : Z
large = block true (5 ∷ 1 ∷ [])

large-IsZ : IsZ large
large-IsZ = ((omega arith, (omega arith, tt)), omega arith, omega arith)

large_few : length (z_arg large).limbs < 2 ^ 29
unfolding z_arg
large_few = omega arith

ml_z_custom_deserialize-ml_z_custom_serialize_example :
    (bytes : List ℕ) × (ml_z_custom_serialize bytes_intext large
      ≡ output bytes (4 + length (z_arg large).limbs * 8) (8 + length (z_arg large).limbs * 8))
    × ((rest : List ℕ)
        → ml_z_custom_deserialize bytes_intext (bytes ++ rest) ≡ record {
          z = block (z_arg large).negative (z_arg large).limbs;
          size = 8 + length (z_arg large).limbs * 8;
          rest = rest;
        })
ml_z_custom_deserialize-ml_z_custom_serialize_example =
    ml_z_custom_deserialize-ml_z_custom_serialize bytes_intext large large-IsZ large_few

-- All of the limbs are 1.
ones : ℕ → List ℕ
ones zero = []
ones (suc n) = 1 ∷ ones n

length-ones : (n : ℕ) → length (ones n) ≡ n
unfolding ones
length-ones zero = refl
length-ones (suc n) = omega (arith, length-ones n)

-- 2 ^ 29 limbs, which take 2 ^ 32 bytes.
abbrev huge : Z
huge = block false (ones (2 ^ 29))

length-huge : length (z_arg huge).limbs ≡ 2 ^ 29
unfolding z_arg
length-huge = length-ones (2 ^ 29)

ml_z_custom_deserialize-IsTruncated_example :
    let n = length (z_arg huge).limbs in
    (bytes : List ℕ) × (ml_z_custom_serialize bytes_intext huge
      ≡ output bytes (4 + n * 8) (8 + n * 8))
    × ((rest : List ℕ)
        → IsTruncated huge (8 + n * 8) (ml_z_custom_deserialize bytes_intext (bytes ++ rest)))
ml_z_custom_deserialize-IsTruncated_example =
    ml_z_custom_deserialize-IsTruncated bytes_intext huge (omega (arith, length-huge))
      (omega (arith, length-huge))
