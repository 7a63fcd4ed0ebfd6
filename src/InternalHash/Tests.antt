-- ===== src/InternalHash/Tests.antt =====
-- Runs of the hash of Base, and each theorem at one input.
use ppx_universe.Base.{ℕ, ◌≡◌, refl, arith, List, [], ◌∷◌}
use ppx_universe.InternalHash.{final_mix, fold_string}
use ppx_universe.InternalHash.Mix.{unmix, unmix-final_mix}
use ppx_universe.InternalHash.Blob.{Block, fold_blob-blocks}

final_mix_runs : final_mix 1 ≡ 1364076727
unfolding final_mix
final_mix_runs = refl

abbrev hello : List ℕ
hello = 104 ∷ 101 ∷ 108 ∷ 108 ∷ 111 ∷ []

hello_runs : final_mix (fold_string 0 hello) ≡ 2988404224
unfolding final_mix fold_string
hello_runs = refl

-- "test": a whole block, for which the hash is MurmurHash3 with the seed 0.
murmur_runs : final_mix (fold_string 0 (116 ∷ 101 ∷ 115 ∷ 116 ∷ [])) ≡ 3127628307
unfolding final_mix fold_string
murmur_runs = refl

unmix-final_mix_example : unmix (final_mix 12345) ≡ 12345
unmix-final_mix_example = unmix-final_mix 12345 (omega arith)

abbrev block : Block
block = record { b₀ = 104; b₁ = 101; b₂ = 108; b₃ = 108 }

abbrev seed : ℕ
seed = 7

fold_blob-blocks_example : block ≡ block
fold_blob-blocks_example =
    fold_blob-blocks (block ∷ []) block block hello 0 (omega arith)
      (omega arith, omega arith, omega arith, omega arith)
      (omega arith, omega arith, omega arith, omega arith) refl
