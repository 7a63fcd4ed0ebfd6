-- ===== src/Bigstrings/Ownership/Safety.antt =====
-- No sequence of calls frees, reallocates or unmaps memory that is not allocated, or that something
-- else owns.
use ppx_universe.Base.{
  ℕ, ◌+◌, ◌≤◌, ◌<◌, ◌≡◌, inl, inr, List, Bool, true, false, Option, none, some, if◌then◌else◌, ◌&&◌,
  not, set, length, arith, Bool-cases,
}
use ppx_universe.Bigstrings.Ownership.{
  Managed, external, managed, mapped_file, BaArray, Memory, Step, array_at, reset, DestroyFlags,
  reset_at, destroy_switch,
}
use ppx_universe.Bigstrings.Ownership.Count.{
  count, held, owns_ptr, owns, owned, owned-set, owns-get_or, owns-reset, free_lem,
}

-- An address is allocated at most once, and at most one bigarray owns it, which then is allocated.
pub record IsSound (m : Memory) : Type 0 where
  pub once : (p : ℕ) → count p m.blocks ≤ 1
  pub once_mapped : (p : ℕ) → count p m.mappings ≤ 1
  pub live : (p : ℕ) → owned managed p m.arrays ≤ count p m.blocks
  pub live_mapped : (p : ℕ) → owned mapped_file p m.arrays ≤ count p m.mappings

-- The step is defined and leaves the memory sound.
abbrev pub IsSafe : Step → Type 0
IsSafe none = ⊥
IsSafe (some (e, m)) = IsSound m

-- One bigarray is replaced, and some addresses are no longer allocated.
pub replaced :
    (m : Memory) (i : ℕ) (b : BaArray) (blocks mappings : List ℕ)
    → i < length m.arrays
    → ((p : ℕ) → count p blocks ≤ 1)
    → ((p : ℕ) → count p mappings ≤ 1)
    → ((p : ℕ)
        → owned managed p m.arrays + owns managed p b
          ≤ count p blocks + owns managed p (array_at m i))
    → ((p : ℕ)
        → owned mapped_file p m.arrays + owns mapped_file p b
          ≤ count p mappings + owns mapped_file p (array_at m i))
    → IsSound (record { blocks = blocks; mappings = mappings; arrays = set m.arrays i b })
replaced m i b blocks mappings h once once_mapped live live_mapped = record {
  once = once;
  once_mapped = once_mapped;
  live = λ p. omega (arith, owned-set managed p m.arrays i b h, live p);
  live_mapped = λ p. omega (arith, owned-set mapped_file p m.arrays i b h, live_mapped p);
}

-- What one bigarray owns is allocated.
pub owns_allocated :
    (m : Memory) (i : ℕ)
    → IsSound m
    → (p : ℕ)
    → (owns managed p (array_at m i) ≤ count p m.blocks)
      × (owns mapped_file p (array_at m i) ≤ count p m.mappings)
owns_allocated m i sound p = (
  omega (arith, owns-get_or managed p m.arrays i, sound.live p),
  omega (arith, owns-get_or mapped_file p m.arrays i, sound.live_mapped p),
)

-- How a bigarray with these fields owns memory.
abbrev pub Owns : Managed → Bool → Option ℕ → BaArray → Type 0
Owns flags proxy ptr a =
    (k : Managed) (p : ℕ) → owns k p a ≡ (if proxy then 0 else owns_ptr k flags p ptr)

-- Addresses `ptr` that the bigarray owned are freed, and it is reset.
freed-IsSound :
    (m : Memory) (i : ℕ) (blocks mappings : List ℕ)
    → IsSound m
    → i < length m.arrays
    → ((p : ℕ) → count p m.blocks ≤ owns managed p (array_at m i) + count p blocks)
    → ((p : ℕ) → count p blocks ≤ count p m.blocks)
    → ((p : ℕ) → count p m.mappings ≤ owns mapped_file p (array_at m i) + count p mappings)
    → ((p : ℕ) → count p mappings ≤ count p m.mappings)
    → IsSound (record {
      blocks = blocks;
      mappings = mappings;
      arrays = set m.arrays i (reset (array_at m i));
    })
freed-IsSound m i blocks mappings sound h few less few_mapped less_mapped =
    replaced m i (reset (array_at m i)) blocks mappings h (λ p. omega (arith, less p, sound.once p))
      (λ p. omega (arith, less_mapped p, sound.once_mapped p))
      (λ p. omega (arith, owns-reset managed p (array_at m i), few p, sound.live p))
      (λ p.
        omega (arith, owns-reset mapped_file p (array_at m i), few_mapped p, sound.live_mapped p))

reset_at-IsSafe : (i : ℕ) (m : Memory) → IsSound m → i < length m.arrays → IsSafe (reset_at i m)
unfolding reset_at
reset_at-IsSafe i m sound h =
    freed-IsSound m i m.blocks m.mappings sound h (λ p. omega arith) (λ p. omega arith)
      (λ p. omega arith) (λ p. omega arith)

pub destroy_switch-IsSafe :
    (flags : Managed) (proxy finalize : Bool) (destroy_flags : DestroyFlags) (i : ℕ)
    (ptr : Option ℕ) (m : Memory)
    → IsSound m
    → i < length m.arrays
    → Owns flags proxy ptr (array_at m i)
    → IsSafe (destroy_switch flags proxy finalize destroy_flags i ptr m)
unfolding destroy_switch reset_at
destroy_switch-IsSafe external proxy finalize flags i ptr m sound h own =
    elim (Bool-cases (not flags.allow_external)) [
      | inl e ↦ rw e sound
      | inr e ↦ rw e (reset_at-IsSafe i m sound h)
    ]
destroy_switch-IsSafe managed true finalize flags i ptr m sound h own = sound
destroy_switch-IsSafe managed false finalize flags i ptr m sound h own =
    let there : (p : ℕ) → held p ptr ≤ count p m.blocks =
      λ p. omega (arith, own managed p, (owns_allocated m i sound p).0) in
    let (rest, freed, counts) = free_lem ptr m.blocks there in
    rw (freed, IsSafe)
      (freed-IsSound m i rest m.mappings sound h (λ p. omega (arith, own managed p, counts p))
        (λ p. omega (arith, counts p)) (λ p. omega arith) (λ p. omega arith))
destroy_switch-IsSafe mapped_file true finalize flags i ptr m sound h own = sound
destroy_switch-IsSafe mapped_file false finalize flags i ptr m sound h own =
    let there : (p : ℕ) → held p ptr ≤ count p m.mappings =
      λ p. omega (arith, own mapped_file p, (owns_allocated m i sound p).1) in
    let (rest, freed, counts) = free_lem ptr m.mappings there in
    elim (Bool-cases (not flags.do_not_unmap && finalize)) [
      | inl e ↦
          rw (e, freed, IsSafe)
            (freed-IsSound m i m.blocks rest sound h (λ p. omega arith) (λ p. omega arith)
              (λ p. omega (arith, own mapped_file p, counts p)) (λ p. omega (arith, counts p)))
      | inr e ↦ rw e (reset_at-IsSafe i m sound h)
    ]
