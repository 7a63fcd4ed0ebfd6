-- ===== src/Spawn/Strings/Layout.antt =====
-- What alloc_string_vect writes, and where.
use ppx_universe.Base.{
  ℕ, suc, ◌+◌, ◌-◌, ◌*◌, ◌≤◌, ◌<◌, ◌≡◌, refl, ap, ap₂, ◌∙◌, arith, List, [], ◌∷◌, ◌++◌, true, false,
  Option, none, some, if◌then◌else◌, ◌==◌, leb, ltb, length, get_or, length-append,
}
use ppx_universe.BigstringUnix.Replies.{word}
use ppx_universe.Spawn.Strings.{
  sizeof_pointer, Memory, Block, Allocated, allocated, raised_out_of_memory, out_of_bounds,
  set_slot, written, then_block, size_add, measure, fill, to_allocated, fill_block,
  alloc_string_vect,
}

abbrev pub At : (ℕ → ℕ) → ℕ → List ℕ → Type 0
At bytes p [] = Unit {0}
At bytes p (x ∷ xs) = (bytes p ≡ x) × At bytes (suc p) xs

-- The pointers from the one at i on lead to the strings, which follow each other from p on.
abbrev pub Strings : Memory → ℕ → ℕ → List (List ℕ) → Type 0
Strings m i p [] = Unit {0}
Strings m i p (s ∷ ss) =
    (m.slots i ≡ some p) × At m.bytes p (s ++ (0 ∷ [])) × Strings m (suc i) (p + (length s + 1)) ss

-- The bytes of the strings with their NULs.
abbrev pub total : List (List ℕ) → ℕ
total [] = 0
total (s ∷ ss) = length s + 1 + total ss

At-agree :
    (f g : ℕ → ℕ) (p : ℕ) (xs : List ℕ)
    → ((n : ℕ) → p ≤ n → n < p + length xs → f n ≡ g n)
    → At g p xs
    → At f p xs
At-agree f g p [] same h = tt
At-agree f g p (x ∷ xs) same (h, rest) = (
  same p (omega arith) (omega arith) ∙ h,
  At-agree f g (suc p) xs (λ n a b. same n (omega arith) (omega arith)) rest,
)

At-get_or :
    (bytes : ℕ → ℕ) (p : ℕ) (xs : List ℕ)
    → ((j : ℕ) → j < length xs → bytes (p + j) ≡ get_or xs j 0)
    → At bytes p xs
At-get_or bytes p [] h = tt
At-get_or bytes p (x ∷ xs) h =
    let z : p ≡ p + 0 = omega arith in
    (
      ap bytes z ∙ h 0 (omega arith),
      At-get_or bytes (suc p) xs (λ j b.
          let s : suc p + j ≡ p + suc j = omega arith in ap bytes s ∙ h (suc j) (omega arith)),
    )

written-At : (p : ℕ) (xs : List ℕ) (bytes : ℕ → ℕ) → At (written p xs bytes) p xs
written-At p xs bytes = At-get_or (written p xs bytes) p xs λ j h.
    let a : leb p (p + j) ≡ true = ground arith in
    let b : ltb (p + j) (p + length xs) ≡ true = ground arith in
    let c : p + j - p ≡ j = omega arith in rw (a, b, c)

written-before :
    (p : ℕ) (xs : List ℕ) (bytes : ℕ → ℕ) (n : ℕ) → n < p → written p xs bytes n ≡ bytes n
written-before p xs bytes n h = let a : leb p n ≡ false = ground arith in rw a

-- What the loop leaves before its strings stays as it was.
abbrev Filled : List (List ℕ) → ℕ → ℕ → Block → Option Block → Type 0
Filled ss i p b none = ⊥
Filled ss i p b (some b') =
    (b'.size ≡ b.size)
    × ((j : ℕ) → j < i → b'.memory.slots j ≡ b.memory.slots j)
    × ((n : ℕ) → n < p → b'.memory.bytes n ≡ b.memory.bytes n)
    × Strings b'.memory i p ss

-- One round: the string and its pointer.
abbrev round : List ℕ → ℕ → ℕ → Block → Block
round s i p b = record {
  size = b.size;
  memory = record {
    slots = λ j. if j == i then some p else b.memory.slots j;
    bytes = written p (s ++ (0 ∷ [])) b.memory.bytes;
  };
}

round-Filled :
    (s : List ℕ) (ss : List (List ℕ)) (i p : ℕ) (b : Block) (r : Option Block)
    → Filled ss (suc i) (p + (length s + 1)) (round s i p b) r
    → Filled (s ∷ ss) i p b r
round-Filled s ss i p b none h = h
round-Filled s ss i p b (some b') (size, slots, bytes, rest) =
    let self : (i == i) ≡ true = ground arith in
    (
      size,
      λ j h. let ne : (j == i) ≡ false = ground arith in slots j (omega arith) ∙ rw ne,
      λ n h. bytes n (omega arith) ∙ written-before p (s ++ (0 ∷ [])) b.memory.bytes n h,
      (
        slots i (omega arith) ∙ rw self,
        At-agree b'.memory.bytes (written p (s ++ (0 ∷ [])) b.memory.bytes) p (s ++ (0 ∷ []))
            (λ n a c. bytes n (omega (arith, length-append s (0 ∷ []))))
            (written-At p (s ++ (0 ∷ [])) b.memory.bytes),
        rest,
      ),
    )

fill-Filled :
    (ss : List (List ℕ)) (i p : ℕ) (b : Block)
    → p + total ss ≤ b.size
    → (i + length ss) * sizeof_pointer ≤ b.size
    → Filled ss i p b (fill ss i p b)
unfolding fill
fill-Filled [] i p b fits slots = (refl, λ j h. refl, λ n h. refl, tt)
fill-Filled (s ∷ ss) i p b fits slots =
    let a : leb (p + length (s ++ (0 ∷ []))) b.size ≡ true =
      ground (arith, length-append s (0 ∷ [])) in
    let c : leb ((i + 1) * sizeof_pointer) b.size ≡ true = ground arith in
    rw (a, c)
      (round-Filled s ss i p b _
        (fill-Filled ss (suc i) (p + (length s + 1)) (round s i p b) (omega arith) (omega arith)))

abbrev pair : ℕ → ℕ → ℕ × ℕ
pair a b = (a, b)

pub measure_lem :
    (ss : List (List ℕ)) (count n : ℕ)
    → n + (sizeof_pointer * length ss + total ss) < word
    → measure ss count n ≡ (count + length ss, n + (sizeof_pointer * length ss + total ss))
unfolding measure
measure_lem [] count n h =
    let a : count ≡ count + 0 = omega arith in
    let b : n ≡ n + (sizeof_pointer * 0 + 0) = omega arith in ap₂ pair a b
measure_lem (s ∷ ss) count n h =
    let e : size_add n (length s) ≡ n + sizeof_pointer + length s + 1 = omega arith in
    let a : suc count + length ss ≡ count + suc (length ss) = omega arith in
    let b : n + sizeof_pointer + length s + 1 + (sizeof_pointer * length ss + total ss)
        ≡ n + (sizeof_pointer * suc (length ss) + (length s + 1 + total ss)) =
      omega arith in
    rw e
      (measure_lem ss (suc count) (n + sizeof_pointer + length s + 1) (omega arith) ∙ ap₂ pair a b)

-- The room for the pointers, with the NULL behind them, and for the strings.
abbrev pub needed : List (List ℕ) → ℕ
needed v = sizeof_pointer * (length v + 1) + total v

Strings-other :
    (m : Memory) (c i p : ℕ) (x : Option ℕ) (ss : List (List ℕ))
    → i + length ss ≤ c
    → Strings m i p ss
    → Strings (record m { slots = λ j. if j == c then x else m.slots j }) i p ss
Strings-other m c i p x [] h strings = tt
Strings-other m c i p x (s ∷ ss) h (slot, at, strings) =
    let ne : (i == c) ≡ false = ground arith in
    (rw ne slot, at, Strings-other m c (suc i) (p + (length s + 1)) x ss (omega arith) strings)

abbrev pub IsAllocated : List (List ℕ) → Option Memory → Allocated → Type 0
IsAllocated v none r = r ≡ raised_out_of_memory
IsAllocated v (some m) (allocated b) =
    (b.size ≡ needed v)
    × Strings b.memory 0 (sizeof_pointer * (length v + 1)) v
    × (b.memory.slots (length v) ≡ none)
IsAllocated v (some m) raised_out_of_memory = ⊥
IsAllocated v (some m) out_of_bounds = ⊥

last_slot-IsAllocated :
    (v : List (List ℕ)) (m : Memory) (b : Block) (r : Option Block)
    → b.size ≡ needed v
    → Filled v 0 (sizeof_pointer * (length v + 1)) b r
    → IsAllocated v (some m) (to_allocated (then_block r (set_slot (length v) none)))
last_slot-IsAllocated v m b none size h = absurd h
last_slot-IsAllocated v m b (some b') size (same, slots, bytes, strings) =
    let fits : leb ((length v + 1) * sizeof_pointer) b'.size ≡ true = ground (arith, same, size) in
    let self : (length v == length v) ≡ true = ground arith in
    rw fits (
      same ∙ size,
      Strings-other b'.memory (length v) 0 _ none v (omega arith) strings,
      rw self refl,
    )

fill_block-IsAllocated :
    (v : List (List ℕ)) (answer : Option Memory)
    → IsAllocated v answer (fill_block v (length v) (needed v) answer)
fill_block-IsAllocated v none = refl
fill_block-IsAllocated v (some m) =
    last_slot-IsAllocated v m (record { size = needed v; memory = m }) _ refl
      (fill-Filled v 0 (sizeof_pointer * (length v + 1)) (record { size = needed v; memory = m })
        (omega arith) (omega arith))

pub measured :
    (v : List (List ℕ)) → needed v < word → measure v 0 sizeof_pointer ≡ (length v, needed v)
measured v h =
    let a : 0 + length v ≡ length v = omega arith in
    let b : sizeof_pointer + (sizeof_pointer * length v + total v) ≡ needed v = omega arith in
    measure_lem v 0 sizeof_pointer (omega arith) ∙ ap₂ pair a b

-- For strings that fit in the address space with their pointers, alloc_string_vect allocates
-- exactly the bytes that it fills, or raises Out_of_memory where malloc does: it writes nothing
-- outside the block, the pointers lead to the strings with their NULs, one behind the other after
-- the pointers, and NULL ends them.
pub alloc_string_vect_lem :
    (malloc : ℕ → Option Memory) (v : List (List ℕ))
    → needed v < word
    → IsAllocated v (malloc (needed v)) (alloc_string_vect malloc v)
unfolding alloc_string_vect
alloc_string_vect_lem malloc v h = rw (measured v h) (fill_block-IsAllocated v (malloc (needed v)))
