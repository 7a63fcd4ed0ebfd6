-- ===== src/NatStubs/Hash.antt =====
-- hash_nat of num/src/nat_stubs.c. caml_hash_mix_uint32 is a parameter of which nothing is assumed.
pub mod Machines
use ppx_universe.Base.{
  ℕ, zero, suc, ◌+◌, ◌/◌, ◌%◌, ◌^◌, Bool, true, false, ◌&&◌, List, [], ◌∷◌, if◌then◌else◌, ◌==◌,
  take,
}
use ppx_universe.Bng.Compare.{bng_num_digits}

abbrev pub is_empty : List ℕ → Bool
is_empty [] = true
is_empty (d ∷ a) = false

-- The loop over the digits from `i` on; none is left behind the last one, where `i + 1 == len`.
unfoldable pub hash_loop : (ℕ → ℕ → ℕ) → List ℕ → ℕ → ℕ
hash_loop mix [] h = h
hash_loop mix (d ∷ a) h =
    let low = mix h (d % 2 ^ 32) in
    let high = d / 2 ^ 32 in
    let rest = hash_loop mix a (mix low (high % 2 ^ 32)) in
    if (high == 0) && is_empty a then low else rest

unfoldable pub hash_nat : (ℕ → ℕ → ℕ) → List ℕ → ℕ
hash_nat mix v = hash_loop mix (take (bng_num_digits v) v) 0

-- The branch for machines of 32 bits, on digits of 32 bits.
unfoldable pub hash_loop_32 : (ℕ → ℕ → ℕ) → List ℕ → ℕ → ℕ
hash_loop_32 mix [] h = h
hash_loop_32 mix (d ∷ a) h = hash_loop_32 mix a (mix h d)

unfoldable pub hash_nat_32 : (ℕ → ℕ → ℕ) → List ℕ → ℕ
hash_nat_32 mix v = hash_loop_32 mix (take (bng_num_digits v) v) 0
