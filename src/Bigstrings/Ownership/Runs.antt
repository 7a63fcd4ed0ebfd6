-- ===== src/Bigstrings/Ownership/Runs.antt =====
-- Reallocation, and sequences of calls.
use ppx_universe.Base.{
  ℕ, zero, suc, ◌+◌, ◌≤◌, ◌<◌, ◌≡◌, refl, ap, ◌∙◌, List, [], ◌∷◌, ◌++◌, Bool, true, false, Option,
  none, some, ◌==◌, set, get_or, length, length-append, arith,
}
use ppx_universe.Bigstrings.Ownership.{
  Managed, external, managed, mapped_file, Memory, Step, realloc, no_array, array_at, reset,
  new_array, ba_alloc, bigstring_alloc, give_up, realloc_data, realloc_switch, bigstring_realloc,
  core_bigstring_destroy, Call, alloc, reallocate, destroy, map_file, share, step, run,
}
use ppx_universe.Bigstrings.Ownership.Count.{
  count, held, owns, owned-append, owns-reset, free_lem, count-fresh, get_or-append,
}
use ppx_universe.Bigstrings.Ownership.Safety.{
  IsSound, IsSafe, Owns, replaced, owns_allocated, destroy_switch-IsSafe,
}

-- The answer of an allocator that may give one block back: an address that is free but for it.
abbrev pub IsFresh : Option ℕ → List ℕ → Option ℕ → Type 0
IsFresh old blocks none = Unit {0}
IsFresh old blocks (some p) = count p blocks ≤ held p old

-- The block moved: the bigarray is reset, and a new one owns the new block.
moved-IsSound :
    (m : Memory) (i p : ℕ) (ptr : Option ℕ) (rest dim : List ℕ)
    → IsSound m
    → i < length m.arrays
    → Owns managed false ptr (array_at m i)
    → ((q : ℕ) → count q m.blocks ≡ held q ptr + count q rest)
    → count p m.blocks ≤ held p ptr
    → let arrays = m.arrays ++ new_array p dim ∷ [] in
      IsSound (record {
        blocks = p ∷ rest;
        mappings = m.mappings;
        arrays = set arrays i (reset (get_or arrays i no_array));
      })
moved-IsSound m i p ptr rest dim sound h own counts fresh =
    let new = new_array p dim in
    let arrays = m.arrays ++ new ∷ [] in
    let same : get_or arrays i no_array ≡ array_at m i = get_or-append m.arrays (new ∷ []) i h in
    let once : (q : ℕ) → count q rest ≤ 1 = λ q. omega (arith, counts q, sound.once q) in
    let gone : count p rest ≡ 0 = omega (arith, counts p, fresh) in
    replaced (record m { arrays = arrays }) i (reset (get_or arrays i no_array)) (p ∷ rest)
      m.mappings (omega (arith, length-append {0} m.arrays (new ∷ [])))
      (λ q. count-fresh p rest once gone q) (λ q. sound.once_mapped q)
      (λ q.
        let mine : owns managed q (get_or arrays i no_array) ≡ held q ptr =
          ap (owns managed q) same ∙ own managed q in
        omega (
          arith,
          mine,
          owns-reset managed q (get_or arrays i no_array),
          owned-append managed q m.arrays new,
          counts q,
          sound.live q,
        ))
      (λ q.
        let mine : owns mapped_file q (get_or arrays i no_array) ≡ 0 =
          ap (owns mapped_file q) same ∙ own mapped_file q in
        omega (
          arith,
          mine,
          owns-reset mapped_file q (get_or arrays i no_array),
          owned-append mapped_file q m.arrays new,
          sound.live_mapped q,
        ))

-- Where realloc only frees, caml_ba_alloc gets a block.
abbrev pub Granted : ℕ → Option ℕ → Type 0
Granted (suc size) reply = Unit {0}
Granted zero none = ⊥
Granted zero (some p) = Unit {0}

realloc_data-IsSafe :
    (i size : ℕ) (ptr reply ba_reply : Option ℕ) (m : Memory)
    → IsSound m
    → i < length m.arrays
    → Owns managed false ptr (array_at m i)
    → IsFresh ptr m.blocks reply
    → IsFresh ptr m.blocks ba_reply
    → Granted size ba_reply
    → IsSafe (realloc_data i ptr size reply ba_reply m)
unfolding realloc_data realloc ba_alloc give_up
realloc_data-IsSafe i size ptr (some p) ba_reply m sound h own fresh ba_fresh granted =
    let there : (q : ℕ) → held q ptr ≤ count q m.blocks =
      λ q. omega (arith, own managed q, (owns_allocated m i sound q).0) in
    let (rest, freed, counts) = free_lem ptr m.blocks there in
    rw (freed, IsSafe)
      (moved-IsSound m i p ptr rest (set (array_at m i).dim 0 size) sound h own counts fresh)
realloc_data-IsSafe i zero ptr none (some p) m sound h own fresh ba_fresh granted =
    let there : (q : ℕ) → held q ptr ≤ count q m.blocks =
      λ q. omega (arith, own managed q, (owns_allocated m i sound q).0) in
    let (rest, freed, counts) = free_lem ptr m.blocks there in
    rw (freed, IsSafe)
      (moved-IsSound m i p ptr rest (set (array_at m i).dim 0 0) sound h own counts ba_fresh)
realloc_data-IsSafe i zero ptr none none m sound h own fresh ba_fresh granted = absurd granted
realloc_data-IsSafe i (suc size) ptr none ba_reply m sound h own fresh ba_fresh granted =
    let e : (suc size == 0) ≡ false = ground arith in rw (e, IsSafe) sound

realloc_switch-IsSafe :
    (flags : Managed) (proxy : Bool) (i size : ℕ) (ptr reply ba_reply : Option ℕ) (m : Memory)
    → IsSound m
    → i < length m.arrays
    → Owns flags proxy ptr (array_at m i)
    → IsFresh ptr m.blocks reply
    → IsFresh ptr m.blocks ba_reply
    → Granted size ba_reply
    → IsSafe (realloc_switch flags proxy i ptr size reply ba_reply m)
unfolding realloc_switch
realloc_switch-IsSafe external proxy i size ptr reply ba_reply m sound h own f g b = sound
realloc_switch-IsSafe managed true i size ptr reply ba_reply m sound h own f g b = sound
realloc_switch-IsSafe managed false i size ptr reply ba_reply m sound h own f g b =
    realloc_data-IsSafe i size ptr reply ba_reply m sound h own f g b
realloc_switch-IsSafe mapped_file proxy i size ptr reply ba_reply m sound h own f g b = sound

-- A call on a bigarray there is, with answers of the allocator that it can give.
abbrev pub Fits : Call → Memory → Type 0
Fits (alloc keep_unused size reply) m = IsFresh none m.blocks reply
Fits (reallocate i size reply ba_reply) m =
    (i < length m.arrays)
    × IsFresh (array_at m i).data_ptr m.blocks reply
    × IsFresh (array_at m i).data_ptr m.blocks ba_reply
    × Granted size ba_reply
Fits (destroy i flags) m = i < length m.arrays
Fits (map_file p) m = count p m.mappings ≡ 0
Fits (share i) m = i < length m.arrays

added-IsSound :
    (m : Memory) (p : ℕ) (dim : List ℕ)
    → IsSound m
    → count p m.blocks ≤ 0
    → IsSound (record m { blocks = p ∷ m.blocks; arrays = m.arrays ++ new_array p dim ∷ [] })
added-IsSound m p dim sound fresh = record {
  once = λ q. count-fresh p m.blocks sound.once (omega arith) q;
  once_mapped = sound.once_mapped;
  live = λ q. omega (arith, owned-append managed q m.arrays (new_array p dim), sound.live q);
  live_mapped = λ q.
      omega (arith, owned-append mapped_file q m.arrays (new_array p dim), sound.live_mapped q);
}

mapped-IsSound :
    (m : Memory) (p : ℕ)
    → IsSound m
    → count p m.mappings ≡ 0
    → IsSound (record m {
      mappings = p ∷ m.mappings;
      arrays = m.arrays ++ record (new_array p []) { flags = mapped_file } ∷ [];
    })
mapped-IsSound m p sound fresh =
    let new = record (new_array p []) { flags = mapped_file } in
    record {
      once = sound.once;
      once_mapped = λ q. count-fresh p m.mappings sound.once_mapped fresh q;
      live = λ q. omega (arith, owned-append managed q m.arrays new, sound.live q);
      live_mapped =
          λ q. omega (arith, owned-append mapped_file q m.arrays new, sound.live_mapped q);
    }

shared-IsSound :
    (m : Memory) (i : ℕ)
    → IsSound m
    → i < length m.arrays
    → IsSound (record m { arrays = set m.arrays i (record (array_at m i) { proxy = true }) })
shared-IsSound m i sound h =
    replaced m i (record (array_at m i) { proxy = true }) m.blocks m.mappings h sound.once
      sound.once_mapped (λ p. omega (arith, sound.live p)) (λ p. omega (arith, sound.live_mapped p))

-- A call that fits keeps the memory sound and never meets memory that is not allocated.
pub step-IsSafe : (c : Call) (m : Memory) → IsSound m → Fits c m → IsSafe (step c m)
unfolding step bigstring_alloc ba_alloc bigstring_realloc core_bigstring_destroy
step-IsSafe (alloc true size none) m sound fits = sound
step-IsSafe (alloc true size (some p)) m sound fits = added-IsSound m p (size ∷ []) sound fits
step-IsSafe (alloc false size none) m sound fits = sound
step-IsSafe (alloc false size (some p)) m sound fits = added-IsSound m p (size ∷ []) sound fits
step-IsSafe (reallocate i size reply ba_reply) m sound (h, f, g, b) =
    let a = array_at m i in
    realloc_switch-IsSafe a.flags a.proxy i size a.data_ptr reply ba_reply m sound h (λ k p. refl) f
      g b
step-IsSafe (destroy i flags) m sound h =
    let a = array_at m i in
    destroy_switch-IsSafe a.flags a.proxy a.finalize flags i a.data_ptr m sound h (λ k p. refl)
step-IsSafe (map_file p) m sound fits = mapped-IsSound m p sound fits
step-IsSafe (share i) m sound h = shared-IsSound m i sound h

abbrev pub FitAll : List Call → Memory → Type 0
FitAll [] m = Unit {0}
FitAll (c ∷ cs) m = Fits c m × elim (step c m) [ none ↦ Unit {0} | some (e, m') ↦ FitAll cs m' ]

-- The run is defined and leaves the memory sound.
abbrev pub IsSafeRun : Option Memory → Type 0
IsSafeRun none = ⊥
IsSafeRun (some m) = IsSound m

-- From a memory in which every address is allocated at most once, and owned by at most one
-- bigarray and only if it is allocated, any sequence of allocations, reallocations and
-- destructions of bigstrings with any flags, of mappings of files and of bigarrays that pass their
-- memory on to a proxy, is defined - nothing is freed, reallocated or unmapped that is not
-- allocated - and ends in such a memory; provided that the allocator answers with addresses that
-- are free, the calls name bigarrays that exist, and caml_ba_alloc gets a block where it is asked
-- for one after a reallocation to size 0.
pub run-IsSafeRun : (cs : List Call) (m : Memory) → IsSound m → FitAll cs m → IsSafeRun (run cs m)
unfolding run
run-IsSafeRun [] m sound fits = sound
run-IsSafeRun (c ∷ cs) m sound (fits, rest) =
    after (step c m) (step-IsSafe c m sound fits) rest (λ m' s f. run-IsSafeRun cs m' s f)
  where
    after :
        (s : Step)
        → IsSafe s
        → elim s as (λ _. Type 0) [ none ↦ Unit {0} | some (e, m') ↦ FitAll cs m' ]
        → ((m' : Memory) → IsSound m' → FitAll cs m' → IsSafeRun (run cs m'))
        → IsSafeRun (elim s as (λ _. Option Memory) [ none ↦ none | some (e, m') ↦ run cs m' ])
    after none safe fit next = absurd safe
    after (some (e, m')) safe fit next = next m' safe fit
