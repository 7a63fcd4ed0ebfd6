-- ===== src/Spawn/Strings/Copied.antt =====
-- copy_c_string_array against alloc_string_vect.
use ppx_universe.Base.{
  ℕ, zero, suc, ◌+◌, ◌*◌, ◌<◌, ◌≡◌, ◌≢◌, refl, sym, ap, ap₂, ◌∙◌, arith, List, [], ◌∷◌, ◌++◌,
  Option, none, some, ◌==◌, length, length-append, All, true, false,
}
use mathlib.Core.Path.{fun_ext, subst}
use ppx_universe.BigstringUnix.Replies.{word}
use ppx_universe.Spawn.Strings.{
  sizeof_pointer, Memory, Block, Allocated, allocated, raised_out_of_memory, out_of_bounds,
  set_slot, memcpy, then_block, size_add, measure, fill, to_allocated, fill_block,
  alloc_string_vect, strlen, measure_array, load, fill_array, fill_array_block, copy_c_string_array,
}
use ppx_universe.Spawn.Strings.Layout.{At, Strings, IsAllocated, alloc_string_vect_lem, needed}

abbrev block_memory : Allocated → Memory
block_memory (allocated b) = b.memory
block_memory raised_out_of_memory = record { slots = λ i. none; bytes = λ n. 0 }
block_memory out_of_bounds = record { slots = λ i. none; bytes = λ n. 0 }

-- A NULL-terminated array of the strings, from the pointer at i on.
abbrev pub CStrings : Memory → ℕ → List (List ℕ) → Type 0
CStrings m i [] = m.slots i ≡ none
CStrings m i (s ∷ ss) =
    (p : ℕ) × (m.slots i ≡ some p) × At m.bytes p (s ++ (0 ∷ [])) × CStrings m (suc i) ss

-- A string that C can hold, shorter than the bound.
abbrev pub IsCString : ℕ → List ℕ → Type 0
IsCString limit s = (length s < limit) × All (λ x. x ≢ 0) s

strlen_lem :
    (fuel : ℕ) (bytes : ℕ → ℕ) (p : ℕ) (s : List ℕ)
    → length s < fuel
    → All (λ x. x ≢ 0) s
    → At bytes p (s ++ (0 ∷ []))
    → strlen fuel bytes p ≡ some (length s)
unfolding strlen
strlen_lem zero bytes p s h all at = absurd (omega arith)
strlen_lem (suc fuel) bytes p [] h all (at, rest) =
    let e : (bytes p == 0) ≡ true = ground arith in rw e refl
strlen_lem (suc fuel) bytes p (x ∷ s) h (ne, all) (at, rest) =
    let e : (bytes p == 0) ≡ false = ground arith in
    rw (e, strlen_lem fuel bytes (suc p) s (omega arith) all rest) refl

load_lem : (bytes : ℕ → ℕ) (p : ℕ) (xs : List ℕ) → At bytes p xs → load bytes p (length xs) ≡ xs
load_lem bytes p [] at = refl
load_lem bytes p (x ∷ xs) (at, rest) = ap₂ (◌∷◌) at (load_lem bytes (suc p) xs rest)

measure_array_lem :
    (fuel limit : ℕ) (m : Memory) (ss : List (List ℕ)) (count n : ℕ)
    → length ss < fuel
    → All (IsCString limit) ss
    → CStrings m count ss
    → measure_array fuel limit m count n ≡ some (measure ss count n)
unfolding measure_array measure
measure_array_lem zero limit m ss count n h all strings = absurd (omega arith)
measure_array_lem (suc fuel) limit m [] count n h all strings = rw (measure_array, strings) refl
measure_array_lem (suc fuel) limit m (s ∷ ss) count n h ((short, nul_free), all)
      (p, slot, at, strings) =
    rw (measure_array, slot, strlen_lem limit m.bytes p s short nul_free at)
      (measure_array_lem fuel limit m ss (suc count) (size_add n (length s)) (omega arith) all
        strings)

fill_array_lem :
    (limit : ℕ) (m : Memory) (ss : List (List ℕ)) (i ptr : ℕ) (b : Block)
    → All (IsCString limit) ss
    → CStrings m i ss
    → fill_array limit m (length ss) i ptr b ≡ fill ss i ptr b
unfolding fill_array fill
fill_array_lem limit m [] i ptr b all strings = refl
fill_array_lem limit m (s ∷ ss) i ptr b ((short, nul_free), all) (p, slot, at, strings) =
    let len = strlen_lem limit m.bytes p s short nul_free at in
    let loaded : load m.bytes p (length s + 1) ≡ s ++ (0 ∷ []) =
      ap (load m.bytes p) (sym (length-append s (0 ∷ [])))
      ∙ load_lem m.bytes p (s ++ (0 ∷ [])) at in
    rw (fill_array, slot, len)
      (rw loaded (
        ap (then_block (then_block (memcpy ptr (s ++ (0 ∷ [])) b) (set_slot i (some ptr))))
          (fun_ext λ x. fill_array_lem limit m ss (suc i) (ptr + (length s + 1)) x all strings)))

fill_array_block_lem :
    (limit : ℕ) (m : Memory) (ss : List (List ℕ)) (count full_size : ℕ) (answer : Option Memory)
    → count ≡ length ss
    → All (IsCString limit) ss
    → CStrings m 0 ss
    → fill_array_block limit m count full_size answer ≡ fill_block ss count full_size answer
fill_array_block_lem limit m ss count full_size none same all strings = refl
fill_array_block_lem limit m ss count full_size (some memory) same all strings =
    ap (λ b. to_allocated (then_block b (set_slot count none)))
      (ap
          (λ n.
            fill_array limit m n 0 (sizeof_pointer * (count + 1))
              (record { size = full_size; memory = memory }))
          same
        ∙ fill_array_lem limit m ss 0 (sizeof_pointer * (count + 1))
            (record { size = full_size; memory = memory }) all strings)

measure-count : (ss : List (List ℕ)) (count n : ℕ) → (measure ss count n).0 ≡ count + length ss
unfolding measure
measure-count [] count n = omega arith
measure-count (s ∷ ss) count n =
    measure-count ss (suc count) (size_add n (length s))
    ∙ (let e : suc count + length ss ≡ count + suc (length ss) = omega arith in e)

-- Where the array holds strings without NUL and fuel is enough, the copy is the one of the strings.
pub copy_c_string_array_lem :
    (fuel limit : ℕ) (malloc : ℕ → Option Memory) (strings : Memory) (ss : List (List ℕ))
    → length ss < fuel
    → All (IsCString limit) ss
    → CStrings strings 0 ss
    → copy_c_string_array fuel limit malloc strings ≡ alloc_string_vect malloc ss
unfolding copy_c_string_array alloc_string_vect
copy_c_string_array_lem fuel limit malloc strings ss h all held =
    let zero_plus : 0 + length ss ≡ length ss = omega arith in
    rw (measure_array_lem fuel limit strings ss 0 sizeof_pointer h all held) (
      fill_array_block_lem limit strings ss (measure ss 0 sizeof_pointer).0
        (measure ss 0 sizeof_pointer).1 _ (measure-count ss 0 sizeof_pointer ∙ zero_plus) all held)

Strings-CStrings :
    (m : Memory) (i p : ℕ) (ss : List (List ℕ))
    → Strings m i p ss
    → m.slots (i + length ss) ≡ none
    → CStrings m i ss
Strings-CStrings m i p [] strings last = let e : i ≡ i + 0 = omega arith in ap m.slots e ∙ last
Strings-CStrings m i p (s ∷ ss) (slot, at, strings) last =
    let e : suc i + length ss ≡ i + suc (length ss) = omega arith in
    (p, slot, at, Strings-CStrings m (suc i) (p + (length s + 1)) ss strings (ap m.slots e ∙ last))

IsAllocated-CStrings :
    (v : List (List ℕ)) (answer : Option Memory) (r : Allocated) (b : Block)
    → IsAllocated v answer r
    → r ≡ allocated b
    → CStrings b.memory 0 v
IsAllocated-CStrings v none r b h same = absurd (cc (h, same))
IsAllocated-CStrings v (some m) (allocated b') b (size, strings, last) same =
    let e : 0 + length v ≡ length v = omega arith in
    subst (λ x. CStrings x 0 v) (ap block_memory same)
      (Strings-CStrings b'.memory 0 _ v strings (ap b'.memory.slots e ∙ last))
IsAllocated-CStrings v (some m) raised_out_of_memory b h same = absurd h
IsAllocated-CStrings v (some m) out_of_bounds b h same = absurd h

-- For strings without NUL that fit in the address space with their pointers, and fuel for their
-- count and lengths, copy_c_string_array reads back from the block that alloc_string_vect made the
-- very strings: what it allocates is what alloc_string_vect allocates for them.
pub copy_c_string_array-alloc_string_vect :
    (fuel limit : ℕ) (malloc malloc' : ℕ → Option Memory) (v : List (List ℕ)) (b : Block)
    → needed v < word
    → length v < fuel
    → All (IsCString limit) v
    → alloc_string_vect malloc v ≡ allocated b
    → copy_c_string_array fuel limit malloc' b.memory ≡ alloc_string_vect malloc' v
copy_c_string_array-alloc_string_vect fuel limit malloc malloc' v b fits h all same =
    copy_c_string_array_lem fuel limit malloc' b.memory v h all (
      IsAllocated-CStrings v (malloc (needed v)) (alloc_string_vect malloc v) b
        (alloc_string_vect_lem malloc v fits) same)
