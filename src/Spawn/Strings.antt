-- ===== src/Spawn/Strings.antt =====
-- The copies of string arrays in spawn_stubs.c: one block with the pointers, then the strings, each
-- with a NUL behind it. An OCaml string is a list of bytes; a C string stands in the memory up to a
-- NUL. A pointer into the block is the offset from its start.
pub mod Layout
pub mod Copied
mod Tests
use ppx_universe.Base.{
  ℕ, zero, suc, ◌+◌, ◌-◌, ◌*◌, ◌%◌, ◌^◌, ◌≡◌, List, [], ◌∷◌, ◌++◌, Bool, true, false, ◌&&◌, Option,
  none, some, if◌then◌else◌, ◌==◌, leb, ltb, length, get_or,
}
use ppx_universe.BigstringUnix.Replies.{word}

abbrev pub sizeof_pointer : ℕ
sizeof_pointer = 8

-- Memory seen as pointers, where NULL is none, and as bytes.
pub record Memory : Type 0 where
  pub slots : ℕ → Option ℕ
  pub bytes : ℕ → ℕ

pub record Block : Type 0 where
  pub size : ℕ
  pub memory : Memory

-- caml_raise_raised_out_of_memory; an access outside the block, or a loop that has not ended.
pub data Allocated : Type 0 where
  allocated : Block → Allocated
  raised_out_of_memory out_of_bounds : Allocated

-- `result[i] = ptr`
abbrev pub set_slot : ℕ → Option ℕ → Block → Option Block
set_slot i ptr b =
    if leb ((i + 1) * sizeof_pointer) b.size
    then some (record b {
      memory = record (b.memory) { slots = λ j. if j == i then ptr else b.memory.slots j };
    })
    else none

abbrev pub written : ℕ → List ℕ → (ℕ → ℕ) → ℕ → ℕ
written p bs bytes n = if leb p n && ltb n (p + length bs) then get_or bs (n - p) 0 else bytes n

abbrev pub memcpy : ℕ → List ℕ → Block → Option Block
memcpy p bs b =
    if leb (p + length bs) b.size
    then some (record b { memory = record (b.memory) { bytes = written p bs b.memory.bytes } })
    else none

abbrev pub then_block : Option Block → (Block → Option Block) → Option Block
then_block none f = none
then_block (some b) f = f b

abbrev pub size_add : ℕ → ℕ → ℕ
size_add n len = (n + sizeof_pointer + len + 1) % word

-- The first loop: the strings are counted and measured.
unfoldable pub measure : List (List ℕ) → ℕ → ℕ → ℕ × ℕ
measure [] count full_size = (count, full_size)
measure (s ∷ ss) count full_size = measure ss (suc count) (size_add full_size (length s))

-- The second loop: from the string i on, which goes to ptr.
unfoldable pub fill : List (List ℕ) → ℕ → ℕ → Block → Option Block
fill [] i ptr b = some b
fill (s ∷ ss) i ptr b =
    then_block (then_block (memcpy ptr (s ++ (0 ∷ [])) b) (set_slot i (some ptr)))
      (fill ss (suc i) (ptr + (length s + 1)))

abbrev pub to_allocated : Option Block → Allocated
to_allocated none = out_of_bounds
to_allocated (some b) = allocated b

-- The strings into what malloc gave.
abbrev pub fill_block : List (List ℕ) → ℕ → ℕ → Option Memory → Allocated
fill_block ss count full_size none = raised_out_of_memory
fill_block ss count full_size (some memory) = to_allocated (
    then_block
      (fill ss 0 (sizeof_pointer * (count + 1)) (record { size = full_size; memory = memory }))
      (set_slot count none))

-- malloc gives a block with any contents, or none.
unfoldable pub alloc_string_vect : (ℕ → Option Memory) → List (List ℕ) → Allocated
unfolding measure fill
alloc_string_vect malloc v =
    let (count, full_size) = measure v 0 sizeof_pointer in
    fill_block v count full_size (malloc full_size)

-- strlen and the loop over the array, with fuel for each.
abbrev pub plus_one : Option ℕ → Option ℕ
plus_one none = none
plus_one (some n) = some (suc n)

unfoldable pub strlen : ℕ → (ℕ → ℕ) → ℕ → Option ℕ
strlen zero bytes p = none
strlen (suc fuel) bytes p =
    let rest = strlen fuel bytes (suc p) in if bytes p == 0 then some 0 else plus_one rest

-- `while (strings[count] != 0)`
unfoldable pub measure_array : ℕ → ℕ → Memory → ℕ → ℕ → Option (ℕ × ℕ)
unfolding strlen
measure_array zero limit strings count full_size = none
measure_array (suc fuel) limit strings count full_size = elim (strings.slots count) [
  | none ↦ some (count, full_size)
  | some s ↦ elim (strlen limit strings.bytes s) [
    | none ↦ none
    | some len ↦ measure_array fuel limit strings (suc count) (size_add full_size len)
  ]
]

abbrev pub load : (ℕ → ℕ) → ℕ → ℕ → List ℕ
load bytes p zero = []
load bytes p (suc n) = bytes p ∷ load bytes (suc p) n

abbrev pub length_at : ℕ → Memory → Option ℕ → Option (ℕ × ℕ)
length_at limit strings none = none
length_at limit strings (some s) = elim (strlen limit strings.bytes s) [
  | none ↦ none
  | some len ↦ some (s, len + 1)
]

-- The second loop: the strings from i on that are left, to ptr.
unfoldable pub fill_array : ℕ → Memory → ℕ → ℕ → ℕ → Block → Option Block
unfolding strlen
fill_array limit strings zero i ptr b = some b
fill_array limit strings (suc left) i ptr b = elim (length_at limit strings (strings.slots i)) [
  | none ↦ none
  | some (s, len) ↦
      then_block (then_block (memcpy ptr (load strings.bytes s len) b) (set_slot i (some ptr)))
        (fill_array limit strings left (suc i) (ptr + len))
]

abbrev pub fill_array_block : ℕ → Memory → ℕ → ℕ → Option Memory → Allocated
fill_array_block limit strings count full_size none = raised_out_of_memory
fill_array_block limit strings count full_size (some memory) = to_allocated (
    then_block
      (fill_array limit strings count 0 (sizeof_pointer * (count + 1))
        (record { size = full_size; memory = memory }))
      (set_slot count none))

abbrev pub copy_measured : ℕ → Memory → (ℕ → Option Memory) → Option (ℕ × ℕ) → Allocated
copy_measured limit strings malloc none = out_of_bounds
copy_measured limit strings malloc (some (count, full_size)) =
    fill_array_block limit strings count full_size (malloc full_size)

unfoldable pub copy_c_string_array : ℕ → ℕ → (ℕ → Option Memory) → Memory → Allocated
unfolding measure_array fill_array
copy_c_string_array fuel limit malloc strings =
    copy_measured limit strings malloc (measure_array fuel limit strings 0 sizeof_pointer)
