-- ===== src/Bigstrings/Ownership.antt =====
-- The life of a bigstring: bigstring_alloc of base_bigstring_stubs.c, and bigstring_realloc and
-- core_bigstring_destroy of core_kernel/src/bigstring_stubs.c. What malloc and realloc answer is an
-- argument, and so is the block that caml_ba_alloc (of the OCaml runtime) gets where it is given
-- NULL. `none` stands for a call of free, realloc or munmap on memory that is not allocated.
pub mod Count
pub mod Safety
pub mod Runs
pub mod Ends
use ppx_universe.Base.{
  ℕ, zero, suc, ◌+◌, List, [], ◌∷◌, ◌++◌, Bool, true, false, Option, none, some, not, if◌then◌else◌,
  ◌==◌, ◌&&◌, set, get_or, length,
}

-- `flags & CAML_BA_MANAGED_MASK`
pub data Managed : Type 0 where
  external managed mapped_file : Managed

-- `struct caml_ba_array`, its `proxy != NULL` and `ops->finalize != NULL`.
pub record BaArray : Type 0 where
  pub data_ptr : Option ℕ
  pub flags : Managed
  pub proxy : Bool
  pub finalize : Bool
  pub dim : List ℕ

-- The blocks of malloc, the mappings of files, and the bigarrays of the OCaml heap.
pub record Memory : Type 0 where
  pub blocks : List ℕ
  pub mappings : List ℕ
  pub arrays : List BaArray

pub data Ended : Type 0 where
  returned failwith out_of_memory : Ended

-- How a primitive ends, if all it frees is allocated.
abbrev pub Step : Type 0
Step = Option (Ended × Memory)

-- free or munmap of an address.
unfoldable pub remove : ℕ → List ℕ → Option (List ℕ)
remove p [] = none
remove p (q ∷ qs) =
    let rest = remove p qs in
    if p == q then some qs else elim rest [ none ↦ none | some qs' ↦ some (q ∷ qs') ]

-- free(NULL) does nothing.
unfoldable pub free : Option ℕ → List ℕ → Option (List ℕ)
unfolding remove
free none blocks = some blocks
free (some p) blocks = remove p blocks

-- "realloc is equivalent to free when size is equal to zero, and may return NULL."
unfoldable pub realloc : Option ℕ → ℕ → Option ℕ → List ℕ → Option (Option ℕ × List ℕ)
unfolding free
realloc ptr size (some p) blocks = elim (free ptr blocks) [
  | none ↦ none
  | some rest ↦ some (some p, p ∷ rest)
]
realloc ptr zero none blocks = elim (free ptr blocks) [
  | none ↦ none
  | some rest ↦ some (none, rest)
]
realloc ptr (suc size) none blocks = some (none, blocks)

abbrev pub no_array : BaArray
no_array = record { data_ptr = none; flags = external; proxy = false; finalize = false; dim = [] }

abbrev pub array_at : Memory → ℕ → BaArray
array_at m i = get_or m.arrays i no_array

-- Each `dim[i] = 0`.
abbrev pub zero_dims : List ℕ → List ℕ
zero_dims [] = []
zero_dims (d ∷ ds) = 0 ∷ zero_dims ds

-- `data = NULL`, `flags = CAML_BA_EXTERNAL`
unfoldable pub reset : BaArray → BaArray
reset a = record a { data_ptr = none; flags = external; dim = zero_dims a.dim }

abbrev pub new_array : ℕ → List ℕ → BaArray
new_array p dim = record {
  data_ptr = some p;
  flags = managed;
  proxy = false;
  finalize = true;
  dim = dim;
}

-- caml_ba_alloc with CAML_BA_MANAGED: given NULL, it gets a block of its own or raises.
unfoldable pub ba_alloc : Option ℕ → Option ℕ → List ℕ → Memory → Ended × Memory
ba_alloc (some p) reply dim m = (returned, record m { arrays = m.arrays ++ new_array p dim ∷ [] })
ba_alloc none none dim m = (out_of_memory, m)
ba_alloc none (some p) dim m =
    (returned, record m { blocks = p ∷ m.blocks; arrays = m.arrays ++ new_array p dim ∷ [] })

-- `keep_unused` is `gc_max_unused >= 0`.
unfoldable pub bigstring_alloc : Bool → ℕ → Option ℕ → Memory → Ended × Memory
unfolding ba_alloc
bigstring_alloc true size none m = (out_of_memory, m)
bigstring_alloc true size (some p) m =
    ba_alloc (some p) none (size ∷ []) (record m { blocks = p ∷ m.blocks })
bigstring_alloc false size reply m = ba_alloc none reply (size ∷ []) m

-- The bigarray that was reallocated no longer owns its block.
unfoldable pub give_up : ℕ → Ended × Memory → Ended × Memory
unfolding reset
give_up i (returned, m) = (returned, record m { arrays = set m.arrays i (reset (array_at m i)) })
give_up i (e, m) = (e, m)

-- The part behind the switch.
unfoldable pub realloc_data : ℕ → Option ℕ → ℕ → Option ℕ → Option ℕ → Memory → Step
unfolding realloc ba_alloc give_up
realloc_data i ptr size reply ba_reply m =
    let dim = set (array_at m i).dim 0 size in
    elim (realloc ptr size reply m.blocks) [
      | none ↦ none
      | some (none, blocks) ↦
          if not (size == 0)
          then some (out_of_memory, record m { blocks = blocks })
          else some (give_up i (ba_alloc none ba_reply dim (record m { blocks = blocks })))
      | some (some p, blocks) ↦
          some (give_up i (ba_alloc (some p) ba_reply dim (record m { blocks = blocks })))
    ]

unfoldable pub realloc_switch :
    Managed → Bool → ℕ → Option ℕ → ℕ → Option ℕ → Option ℕ → Memory → Step
unfolding realloc_data
realloc_switch external proxy i ptr size reply ba_reply m = some (failwith, m)
realloc_switch managed true i ptr size reply ba_reply m = some (failwith, m)
realloc_switch managed false i ptr size reply ba_reply m = realloc_data i ptr size reply ba_reply m
realloc_switch mapped_file proxy i ptr size reply ba_reply m = some (failwith, m)

unfoldable pub bigstring_realloc : ℕ → ℕ → Option ℕ → Option ℕ → Memory → Step
unfolding realloc_switch
bigstring_realloc i size reply ba_reply m =
    let ba = array_at m i in realloc_switch ba.flags ba.proxy i ba.data_ptr size reply ba_reply m

-- The flags CORE_BIGSTRING_DESTROY_ALLOW_EXTERNAL and CORE_BIGSTRING_DESTROY_DO_NOT_UNMAP.
pub record DestroyFlags : Type 0 where
  pub allow_external : Bool
  pub do_not_unmap : Bool

-- The part behind the switch.
unfoldable pub reset_at : ℕ → Memory → Step
unfolding reset
reset_at i m = some (returned, record m { arrays = set m.arrays i (reset (array_at m i)) })

unfoldable pub destroy_switch : Managed → Bool → Bool → DestroyFlags → ℕ → Option ℕ → Memory → Step
unfolding reset_at free
destroy_switch external proxy finalize flags i ptr m =
    if not flags.allow_external then some (failwith, m) else reset_at i m
destroy_switch managed true finalize flags i ptr m = some (failwith, m)
destroy_switch managed false finalize flags i ptr m = elim (free ptr m.blocks) [
  | none ↦ none
  | some rest ↦ reset_at i (record m { blocks = rest })
]
destroy_switch mapped_file true finalize flags i ptr m = some (failwith, m)
destroy_switch mapped_file false finalize flags i ptr m =
    if not flags.do_not_unmap && finalize
    then (elim (free ptr m.mappings) [
      | none ↦ none
      | some rest ↦ reset_at i (record m { mappings = rest })
    ])
    else reset_at i m

unfoldable pub core_bigstring_destroy : ℕ → DestroyFlags → Memory → Step
unfolding destroy_switch
core_bigstring_destroy i flags m =
    let b = array_at m i in destroy_switch b.flags b.proxy b.finalize flags i b.data_ptr m

unfoldable pub bigstring_destroy : ℕ → Memory → Step
unfolding core_bigstring_destroy
bigstring_destroy i m =
    core_bigstring_destroy i (record { allow_external = false; do_not_unmap = false }) m

-- A call of a primitive, or a step of the runtime: a file is mapped, a bigarray gets a proxy, which
-- owns its memory from then on.
pub data Call : Type 0 where
  alloc : Bool → ℕ → Option ℕ → Call
  reallocate : ℕ → ℕ → Option ℕ → Option ℕ → Call
  destroy : ℕ → DestroyFlags → Call
  map_file share : ℕ → Call

unfoldable pub step : Call → Memory → Step
unfolding bigstring_alloc bigstring_realloc core_bigstring_destroy
step (alloc keep_unused size reply) m = some (bigstring_alloc keep_unused size reply m)
step (reallocate i size reply ba_reply) m = bigstring_realloc i size reply ba_reply m
step (destroy i flags) m = core_bigstring_destroy i flags m
step (map_file p) m = some (
  returned,
  record m {
    mappings = p ∷ m.mappings;
    arrays = m.arrays ++ record (new_array p []) { flags = mapped_file } ∷ [];
  },
)
step (share i) m =
    some (returned, record m { arrays = set m.arrays i (record (array_at m i) { proxy = true }) })

-- A sequence of calls.
unfoldable pub run : List Call → Memory → Option Memory
unfolding step
run [] m = some m
run (c ∷ cs) m = elim (step c m) [ none ↦ none | some (e, m') ↦ run cs m' ]
