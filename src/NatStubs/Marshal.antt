-- ===== src/NatStubs/Marshal.antt =====
-- serialize_nat and deserialize_nat of num/src/nat_stubs.c on a 64-bit little-endian machine. The
-- functions of caml/intext.h are a parameter: what they write and what they read back.
pub mod RoundTrip
use ppx_universe.Base.{
  ℕ, suc, ◌+◌, ◌-◌, ◌*◌, ◌%◌, ◌^◌, ◌<◌, ◌≡◌, List, [], ◌∷◌, ◌++◌, not, if◌then◌else◌, ◌==◌, leb,
  bit_and, length, All,
}
use ppx_universe.Bng.Digit.{base}
use ppx_universe.NatStubs.Words.{IsWord, words, digits}

-- caml_serialize_int_4 and caml_serialize_block_4 give the bytes that they append; their readers
-- take what was written off the front of the bytes.
pub record Intext : Type 0 where
  pub serialize_int_4 : ℕ → List ℕ
  pub serialize_block_4 : List ℕ → List ℕ
  pub deserialize_uint_4 : List ℕ → ℕ × List ℕ
  pub deserialize_block_4 : ℕ → List ℕ → List ℕ × List ℕ
  pub int_4 :
      (n : ℕ) (rest : List ℕ)
      → n < 2 ^ 32
      → deserialize_uint_4 (serialize_int_4 n ++ rest) ≡ (n, rest)
  pub block_4 :
      (ws rest : List ℕ)
      → All IsWord ws
      → deserialize_block_4 (length ws) (serialize_block_4 ws ++ rest) ≡ (ws, rest)

-- caml_failwith, or the bytes and the sizes on machines of 32 and of 64 bits.
pub data Serialized : Type 0 where
  failwith : Serialized
  output : List ℕ → ℕ → ℕ → Serialized

unfoldable pub serialize_nat : Intext → List ℕ → Serialized
serialize_nat io nat =
    let wosize = suc (length nat) in
    let len = (wosize - 1) * 2 % base in
    if leb (2 ^ 32) len
    then failwith
    else output (io.serialize_int_4 (len % 2 ^ 32) ++ io.serialize_block_4 (words nat))
        (len * 4 % base) (len * 4 % base)

-- The nat, the size that is returned and the bytes behind it.
pub record Deserialized : Type 0 where
  pub nat : List ℕ
  pub size : ℕ
  pub rest : List ℕ

-- A nat from a 32-bit machine may have an odd count of words: a zero word follows it.
unfoldable pub deserialize_nat : Intext → List ℕ → Deserialized
deserialize_nat io input =
    let len = (io.deserialize_uint_4 input).0 in
    let input1 = (io.deserialize_uint_4 input).1 in
    let dst = (io.deserialize_block_4 len input1).0 in
    let rest = (io.deserialize_block_4 len input1).1 in
    if not (bit_and len 1 == 0)
    then record { nat = digits (dst ++ (0 ∷ [])); size = (len + 1) * 4 % base; rest = rest }
    else record { nat = digits dst; size = len * 4 % base; rest = rest }
