-- ===== src/InternalHash.antt =====
-- base/hash_types/src/internalhash_stubs.c and base/src/hash_stubs.c: the hash of Base, on words of
-- 32 bits. An OCaml int that holds a state is its word. The mixing functions of the OCaml runtime
-- (caml/hash.h) are parameters.
pub mod Mix
pub mod Blob
mod Tests
use Prim.Native.Nat.{bit_xor}
use ppx_universe.Base.{ℕ, ◌+◌, ◌-◌, ◌*◌, ◌/◌, ◌%◌, ◌^◌, List, [], ◌∷◌, bit_and, bit_or, length}

-- uint32_t
abbrev pub word32 : ℕ
word32 = 2 ^ 32

abbrev pub shift_xor : ℕ → ℕ → ℕ
shift_xor n h = bit_xor h (h / 2 ^ n)

-- FINAL_MIX(h)
unfoldable pub final_mix : ℕ → ℕ
final_mix h =
    let h₁ = shift_xor 16 h in
    let h₂ = h₁ * 2246822507 % word32 in
    let h₃ = shift_xor 13 h₂ in let h₄ = h₃ * 3266489909 % word32 in shift_xor 16 h₄

unfoldable pub get_hash_value : ℕ → ℕ
unfolding final_mix
get_hash_value st = bit_and (final_mix (st % word32)) (2 ^ 30 - 1)

-- ROTL32(x,n)
unfoldable pub rotl32 : ℕ → ℕ → ℕ
rotl32 x n = bit_or (x * 2 ^ n % word32) (x / 2 ^ (32 - n))

-- What MIX(h,d) does to `d`, and then to `h`.
unfoldable pub mix_data : ℕ → ℕ
unfolding rotl32
mix_data d = rotl32 (d * 3432918353 % word32) 15 * 461845907 % word32

unfoldable pub mix : ℕ → ℕ → ℕ
unfolding rotl32 mix_data
mix h d = (rotl32 (bit_xor h (mix_data d)) 13 * 5 + 3864292196) % word32

-- A block of four bytes, little-endian.
abbrev pub load : ℕ → ℕ → ℕ → ℕ → ℕ
load a b c d = a + b * 2 ^ 8 + c * 2 ^ 16 + d * 2 ^ 24

-- The blocks of four bytes from `s[i]` on, and then up to three bytes.
unfoldable pub fold_blocks : ℕ → List ℕ → ℕ
unfolding mix
fold_blocks h [] = h
fold_blocks h (a ∷ []) = mix h a
fold_blocks h (a ∷ b ∷ []) = mix h (bit_or (b * 2 ^ 8) a)
fold_blocks h (a ∷ b ∷ c ∷ []) = mix h (bit_or (bit_or (c * 2 ^ 16) (b * 2 ^ 8)) a)
fold_blocks h (a ∷ b ∷ c ∷ d ∷ s) = fold_blocks (mix h (load a b c d)) s

unfoldable pub fold_blob : ℕ → List ℕ → ℕ
unfolding fold_blocks
fold_blob h s = bit_xor (fold_blocks h s) (length s % word32)

unfoldable pub fold_string : ℕ → List ℕ → ℕ
unfolding fold_blob
fold_string st str = fold_blob (st % word32) str

-- internalhash_fold_bigstring
unfoldable pub fold_bigstring : ℕ → List ℕ → ℕ
unfolding fold_blob
fold_bigstring st s = fold_blob (st % word32) s

-- The stubs that pass a value to a mixing function of the runtime.
unfoldable pub fold_value : {A : Type 0} → (ℕ → A → ℕ) → ℕ → A → ℕ
fold_value caml_hash_mix st i = caml_hash_mix (st % word32) i

-- Base_hash_string and Base_hash_double
unfoldable pub hash_value : {A : Type 0} → (ℕ → A → ℕ) → A → ℕ
unfolding final_mix
hash_value caml_hash_mix i = bit_and (final_mix (caml_hash_mix 0 i)) (2 ^ 30 - 1)
