-- ===== src/Bigstrings/Ownership/Ends.antt =====
-- What becomes of a bigstring that was destroyed, or whose reallocation failed.
use ppx_universe.Base.{
  ℕ, zero, suc, ◌≤◌, ◌<◌, ◌≡◌, inl, inr, refl, ap, List, [], ◌∷◌, Bool, true, false, Option, none,
  some, ◌==◌, ◌&&◌, not, set, get_or, length, arith, Bool-cases,
}
use ppx_universe.Bigstrings.Ownership.{
  Managed, external, managed, mapped_file, BaArray, Memory, returned, failwith, out_of_memory, Step,
  remove, free, realloc, no_array, array_at, reset, ba_alloc, give_up, realloc_data, realloc_switch,
  bigstring_realloc, DestroyFlags, reset_at, destroy_switch, core_bigstring_destroy,
  bigstring_destroy,
}
use ppx_universe.Bigstrings.Ownership.Count.{bit, count, owns, remove_lem}
use ppx_universe.Bigstrings.Ownership.Safety.{IsSound, owns_allocated}

get_or-set :
    (bs : List BaArray) (i : ℕ) (b : BaArray) → i < length bs → get_or (set bs i b) i no_array ≡ b
get_or-set [] i b h = absurd (omega arith)
get_or-set (a ∷ bs) zero b h = refl
get_or-set (a ∷ bs) (suc i) b h = get_or-set bs i b (omega arith)

-- The bigstring can be neither destroyed nor reallocated, and the attempt changes nothing.
abbrev pub IsRefused : ℕ → Memory → Type 0
IsRefused i m =
    (bigstring_destroy i m ≡ some (failwith, m))
    × ((size : ℕ) (reply ba_reply : Option ℕ)
        → bigstring_realloc i size reply ba_reply m ≡ some (failwith, m))

external-IsRefused : (i : ℕ) (m : Memory) → (array_at m i).flags ≡ external → IsRefused i m
unfolding bigstring_destroy core_bigstring_destroy destroy_switch bigstring_realloc realloc_switch
external-IsRefused i m e = rw e (refl, λ size reply ba_reply. refl)

-- How a call may leave a bigstring.
abbrev pub IsGone : ℕ → Step → Type 0
IsGone i none = Unit {0}
IsGone i (some (returned, m)) = IsRefused i m
IsGone i (some (e, m)) = Unit {0}

reset-IsRefused :
    (i : ℕ) (m : Memory) (arrays : List BaArray) (a : BaArray)
    → i < length arrays
    → IsRefused i (record m { arrays = set arrays i (reset a) })
unfolding reset
reset-IsRefused i m arrays a h =
    external-IsRefused i (record m { arrays = set arrays i (reset a) })
      (ap (λ (b : BaArray). b.flags) (get_or-set arrays i (reset a) h))

destroy_switch-IsGone :
    (flags : Managed) (proxy finalize : Bool) (destroy_flags : DestroyFlags) (i : ℕ)
    (ptr : Option ℕ) (m : Memory)
    → i < length m.arrays
    → IsGone i (destroy_switch flags proxy finalize destroy_flags i ptr m)
unfolding destroy_switch reset_at
destroy_switch-IsGone external proxy finalize flags i ptr m h =
    elim (Bool-cases (not flags.allow_external)) [
      | inl e ↦ rw e tt
      | inr e ↦ rw e (reset-IsRefused i m m.arrays (array_at m i) h)
    ]
destroy_switch-IsGone managed true finalize flags i ptr m h = tt
destroy_switch-IsGone managed false finalize flags i ptr m h = after (free ptr m.blocks)
  where
    after :
        (freed : Option (List ℕ))
        → IsGone i (elim freed as (λ _. Step) [
          | none ↦ none
          | some rest ↦ reset_at i (record m { blocks = rest })
        ])
    after none = tt
    after (some rest) = reset-IsRefused i (record m { blocks = rest }) m.arrays (array_at m i) h
destroy_switch-IsGone mapped_file true finalize flags i ptr m h = tt
destroy_switch-IsGone mapped_file false finalize flags i ptr m h =
    elim (Bool-cases (not flags.do_not_unmap && finalize)) [
      | inl e ↦ rw e (after (free ptr m.mappings))
      | inr e ↦ rw e (reset-IsRefused i m m.arrays (array_at m i) h)
    ]
  where
    after :
        (freed : Option (List ℕ))
        → IsGone i (elim freed as (λ _. Step) [
          | none ↦ none
          | some rest ↦ reset_at i (record m { mappings = rest })
        ])
    after none = tt
    after (some rest) = reset-IsRefused i (record m { mappings = rest }) m.arrays (array_at m i) h

-- Once core_bigstring_destroy has returned, with whatever flags and for whatever bigarray there
-- is, bigstring_destroy and bigstring_realloc of that bigarray fail with Failure and change
-- nothing.
pub core_bigstring_destroy-IsGone :
    (i : ℕ) (flags : DestroyFlags) (m : Memory)
    → i < length m.arrays
    → IsGone i (core_bigstring_destroy i flags m)
unfolding core_bigstring_destroy
core_bigstring_destroy-IsGone i flags m h =
    let a = array_at m i in destroy_switch-IsGone a.flags a.proxy a.finalize flags i a.data_ptr m h

remove_gone : (p : ℕ) (l : List ℕ) → count p l ≡ 0 → remove p l ≡ none
unfolding remove
remove_gone p [] h = refl
remove_gone p (q ∷ qs) h = elim (Bool-cases (p == q)) [
  | inl e ↦ absurd (ground arith)
  | inr e ↦ let rest : remove p qs ≡ none = remove_gone p qs (ground arith) in rw (e, rest) refl
]

-- Nothing is left of the block that realloc freed, and the bigstring still points to it.
freed_twice :
    (i p : ℕ) (m : Memory) (rest : List ℕ)
    → (array_at m i).flags ≡ managed
    → (array_at m i).proxy ≡ false
    → (array_at m i).data_ptr ≡ some p
    → remove p m.blocks ≡ some rest
    → remove p rest ≡ none
    → (bigstring_realloc i 0 none none m ≡ some (out_of_memory, record m { blocks = rest }))
      × (bigstring_destroy i (record m { blocks = rest }) ≡ none)
unfolding bigstring_realloc realloc_switch realloc_data realloc ba_alloc give_up bigstring_destroy
    core_bigstring_destroy destroy_switch free
freed_twice i p m rest e f g freed gone =
    (rw (e, f, g, freed, realloc_data, realloc) refl, rw (e, f, g, gone, destroy_switch) refl)

-- In a memory as above, where bigstring_realloc to size 0 of a bigarray with a block of its own
-- finds realloc freeing the block and caml_ba_alloc out of memory, it raises Out_of_memory and
-- leaves the bigarray with the freed block, so that destroying it frees what is not allocated.
pub bigstring_realloc-out_of_memory :
    (i p : ℕ) (m : Memory)
    → IsSound m
    → (array_at m i).flags ≡ managed
    → (array_at m i).proxy ≡ false
    → (array_at m i).data_ptr ≡ some p
    → (m' : Memory) × (bigstring_realloc i 0 none none m ≡ some (out_of_memory, m'))
      × (bigstring_destroy i m' ≡ none)
bigstring_realloc-out_of_memory i p m sound e f g =
    let a = array_at m i in
    let self : (p == p) ≡ true = ground arith in
    let one : bit (p == p) ≡ 1 = ap bit self in
    let mine : owns managed p a ≡ 1 = rw (owns, e, f, g) one in
    let allocated : owns managed p a ≤ count p m.blocks = (owns_allocated m i sound p).0 in
    let (rest, freed, counts) = remove_lem p m.blocks (omega (arith, allocated, mine)) in
    let gone : remove p rest ≡ none =
      remove_gone p rest (omega (arith, counts p, one, sound.once p)) in
    let (failed, again) = freed_twice i p m rest e f g freed gone in
    (record m { blocks = rest }, failed, again)
