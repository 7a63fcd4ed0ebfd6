-- ===== src/Bigstrings/Tests.antt =====
-- Runs of the primitives that allocate, free, move and search bigstrings, and each theorem at one input.
use ppx_universe.Base.{
  ℕ, Option, get_or, ◌+◌, ◌%◌, ◌^◌, ◌≡◌, refl, List, [], ◌∷◌, true, false, none, some, arith,
}
use ppx_universe.Base.Splice.{splice}
use ppx_universe.Bigstrings.Bytes.{
  copy, memmove, memchr, bigstring_blit, Buf, bigstring_find, bigstringaf_memchr,
}
use ppx_universe.Bigstrings.Bytes.Find.{IsFirst, offset_in, bigstring_find_lem}
use ppx_universe.Bigstrings.Ownership.{
  external, Memory, out_of_memory, new_array, bigstring_realloc, DestroyFlags,
  core_bigstring_destroy, bigstring_destroy, Call, alloc, reallocate, destroy, map_file, step, run,
}
use ppx_universe.Bigstrings.Ownership.Safety.{IsSound}
use ppx_universe.Bigstrings.Ownership.Runs.{IsSafeRun, FitAll, run-IsSafeRun}
use ppx_universe.Bigstrings.Ownership.Ends.{
  IsGone, core_bigstring_destroy-IsGone, bigstring_realloc-out_of_memory,
}

abbrev sample : List ℕ
sample = 10 ∷ 11 ∷ 12 ∷ 13 ∷ 14 ∷ 15 ∷ 16 ∷ 17 ∷ 18 ∷ 19 ∷ []

abbrev whole : Buf
whole = record { data_ptr = 1; mapped = false }

bigstring_blit-overlap :
    bigstring_blit sample 1 1 1 3 4 ≡ 10 ∷ 11 ∷ 12 ∷ 13 ∷ 12 ∷ 13 ∷ 14 ∷ 15 ∷ 18 ∷ 19 ∷ []
unfolding bigstring_blit memmove copy splice
bigstring_blit-overlap = refl

abbrev floats : List ℕ
floats = 1 ∷ 2 ∷ 3 ∷ 4 ∷ 5 ∷ 6 ∷ 7 ∷ 8 ∷ []

bigstring_find_runs : bigstring_find sample 1 15 2 6 ≡ some 4
unfolding bigstring_find memchr
bigstring_find_runs = refl

bigstring_find_lem_example :
    (found : Option ℕ) × IsFirst (λ i. get_or sample (1 + 2 + i) 0) 6 (15 % 2 ^ 8) found
    × (bigstring_find sample 1 15 2 6 ≡ offset_in 2 found)
    × (bigstringaf_memchr sample 1 2 15 6 ≡ offset_in 2 found)
bigstring_find_lem_example = bigstring_find_lem sample 1 15 2 6 (omega arith)

abbrev nothing : Memory
nothing = record { blocks = []; mappings = []; arrays = [] }

nothing-IsSound : IsSound nothing
nothing-IsSound = record {
  once = λ p. omega arith;
  once_mapped = λ p. omega arith;
  live = λ p. omega arith;
  live_mapped = λ p. omega arith;
}

abbrev plain : DestroyFlags
plain = record { allow_external = false; do_not_unmap = false }

-- A block that moves, is destroyed, and cannot be destroyed again; a file, and a block of size 0.
abbrev calls : List Call
calls =
    alloc true 5 (some 7)
    ∷ reallocate 0 9 (some 8) none
    ∷ destroy 1 plain
    ∷ destroy 1 plain
    ∷ map_file 3
    ∷ destroy 2 plain
    ∷ alloc false 4 (some 8)
    ∷ reallocate 3 0 none (some 8)
    ∷ []

run-calls :
    run calls nothing
    ≡ some (record {
      blocks = 8 ∷ [];
      mappings = [];
      arrays =
          record { data_ptr = none; flags = external; proxy = false; finalize = true; dim = 0 ∷ [] }
          ∷ record {
            data_ptr = none;
            flags = external;
            proxy = false;
            finalize = true;
            dim = 0 ∷ [];
          }
          ∷ record { data_ptr = none; flags = external; proxy = false; finalize = true; dim = [] }
          ∷ record {
            data_ptr = none;
            flags = external;
            proxy = false;
            finalize = true;
            dim = 0 ∷ [];
          }
          ∷ new_array 8 (0 ∷ [])
          ∷ [];
    })
unfolding run
run-calls = refl

calls_fit : FitAll calls nothing
unfolding step
calls_fit = (
  omega arith,
  (
    (omega arith, omega arith, tt, tt),
    (
      omega arith,
      (omega arith, (refl, (omega arith, (omega arith, ((omega arith, tt, omega arith, tt), tt))))),
    ),
  ),
)

run-IsSafeRun_example : IsSafeRun (run calls nothing)
run-IsSafeRun_example = run-IsSafeRun calls nothing nothing-IsSound calls_fit

-- One bigstring of three bytes at the address 7.
abbrev one_block : Memory
one_block = record { blocks = 7 ∷ []; mappings = []; arrays = new_array 7 (3 ∷ []) ∷ [] }

core_bigstring_destroy-IsGone_example : IsGone 0 (core_bigstring_destroy 0 plain one_block)
core_bigstring_destroy-IsGone_example =
    core_bigstring_destroy-IsGone 0 plain one_block (omega arith)

one_block-IsSound : IsSound one_block
one_block-IsSound = record {
  once = λ p. ground arith;
  once_mapped = λ p. omega arith;
  live = λ p. omega arith;
  live_mapped = λ p. omega arith;
}

bigstring_realloc-out_of_memory_example :
    (m' : Memory) × (bigstring_realloc 0 0 none none one_block ≡ some (out_of_memory, m'))
    × (bigstring_destroy 0 m' ≡ none)
bigstring_realloc-out_of_memory_example =
    bigstring_realloc-out_of_memory 0 7 one_block one_block-IsSound refl refl refl
