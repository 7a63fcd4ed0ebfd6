-- ===== src/Spawn/Strings/Tests.antt =====
-- Runs of the copies of string arrays, and the theorems at one input each.
use ppx_universe.Base.{
  ℕ, ◌≡◌, refl, arith, List, [], ◌∷◌, true, false, Option, none, some, ◌==◌, All,
}
use ppx_universe.Spawn.Strings.{
  Memory, Block, Allocated, allocated, raised_out_of_memory, out_of_bounds, measure, fill,
  alloc_string_vect, copy_c_string_array,
}
use ppx_universe.Spawn.Strings.Layout.{IsAllocated, alloc_string_vect_lem}
use ppx_universe.Spawn.Strings.Copied.{
  IsCString, copy_c_string_array_lem, copy_c_string_array-alloc_string_vect,
}

abbrev garbage : ℕ → Option Memory
garbage n = some (record { slots = λ i. some 1; bytes = λ i. 255 })

-- "ls", "" and "-l"
abbrev words : List (List ℕ)
words = (108 ∷ 115 ∷ []) ∷ [] ∷ (45 ∷ 108 ∷ []) ∷ []

abbrev block_or : Allocated → Block
block_or (allocated b) = b
block_or raised_out_of_memory = record {
  size = 0;
  memory = record { slots = λ i. none; bytes = λ i. 0 };
}
block_or out_of_bounds = record { size = 0; memory = record { slots = λ i. none; bytes = λ i. 0 } }

abbrev vector : Block
vector = block_or (alloc_string_vect garbage words)

vector_size : vector.size ≡ 39
unfolding alloc_string_vect measure fill
vector_size = refl

vector_last : vector.memory.slots 2 ≡ some 36
unfolding alloc_string_vect measure fill
vector_last = refl

alloc_string_vect_lem_example : IsAllocated words (garbage 39) (alloc_string_vect garbage words)
alloc_string_vect_lem_example = alloc_string_vect_lem garbage words (omega arith)

words-IsCString : All (IsCString 10) words
words-IsCString = (
  (omega arith, (omega arith, (omega arith, tt))),
  ((omega arith, tt), ((omega arith, (omega arith, (omega arith, tt))), tt)),
)

words-allocated : alloc_string_vect garbage words ≡ allocated vector
unfolding alloc_string_vect measure fill
words-allocated = refl

copy_c_string_array-alloc_string_vect_example :
    copy_c_string_array 10 10 garbage vector.memory ≡ alloc_string_vect garbage words
copy_c_string_array-alloc_string_vect_example =
    copy_c_string_array-alloc_string_vect 10 10 garbage garbage words vector (omega arith)
      (omega arith) words-IsCString words-allocated

abbrev environ : Memory
environ = record {
  slots = λ i. elim (i == 0) [ true ↦ some 4 | false ↦ none ];
  bytes = λ n. elim (n == 6) [ true ↦ 0 | false ↦ 65 ];
}

environ_copied :
    copy_c_string_array 10 10 garbage environ ≡ alloc_string_vect garbage ((65 ∷ 65 ∷ []) ∷ [])
environ_copied =
    copy_c_string_array_lem 10 10 garbage environ ((65 ∷ 65 ∷ []) ∷ []) (omega arith)
      ((omega arith, (omega arith, (omega arith, tt))), tt)
      (4, refl, (refl, (refl, (refl, tt))), refl)
