-- ===== src/NatStubs/Heap.antt =====
-- The nats that the OCaml program holds: a nat is the list of the digits of its custom block, a
-- heap lists the nats, and a `value` that points to a nat is its place in the heap, so that two
-- arguments can be one nat.
pub mod Regions
pub mod Updates
pub mod Several
use ppx_universe.Base.{
  ℕ, zero, suc, ◌+◌, ◌-◌, ◌%◌, ◌^◌, ◌≤◌, ◌<◌, ◌≡◌, ◌≢◌, ◌⊎◌, List, [], ◌∷◌, if◌then◌else◌, ltb,
  length, All, get_or, set, take, drop,
}
use ppx_universe.Base.Splice.{splice}
use ppx_universe.Bng.Number.{IsNumber}

abbrev pub Heap : Type 0
Heap = List (List ℕ)

abbrev pub IsHeap : Heap → Type 0
IsHeap h = All IsNumber h

-- The digits of a nat. A place outside the heap has no digits.
abbrev pub digits_of : Heap → ℕ → List ℕ
digits_of h nat = get_or h nat []

-- Digit_val(nat, pos), read.
unfoldable pub digit_val : Heap → ℕ → ℕ → ℕ
digit_val h nat pos = get_or (digits_of h nat) pos 0

-- {&Digit_val(nat, ofs), len}, read.
unfoldable pub region : Heap → ℕ → ℕ → ℕ → List ℕ
region h nat ofs len = take len (drop ofs (digits_of h nat))

-- {&Digit_val(nat, ofs), len}, written.
unfoldable pub write : Heap → ℕ → ℕ → List ℕ → Heap
write h nat ofs ds = set h nat (splice (digits_of h nat) ofs ds)

-- Digit_val(nat, pos) = d
unfoldable pub set_digit_val : Heap → ℕ → ℕ → ℕ → Heap
set_digit_val h nat pos d = write h nat pos (d ∷ [])

abbrev pub InBounds : Heap → ℕ → ℕ → ℕ → Type 0
InBounds h nat ofs len = (nat < length h) × (ofs + len ≤ length (digits_of h nat))

-- The place `pos` of the nat `m` lies outside the region.
abbrev pub Outside : ℕ → ℕ → ℕ → ℕ → ℕ → Type 0
Outside nat ofs len m pos = (m ≢ nat) ⊎ ((pos < ofs) ⊎ (ofs + len ≤ pos))

-- Two regions without a common digit.
abbrev pub Disjoint : ℕ → ℕ → ℕ → ℕ → ℕ → ℕ → Type 0
Disjoint nat ofs len m pos k = (m ≢ nat) ⊎ ((pos + k ≤ ofs) ⊎ (ofs + len ≤ pos))

-- Two regions without a common digit, or that start at one digit.
abbrev pub DisjointOrSame : ℕ → ℕ → ℕ → ℕ → ℕ → ℕ → Type 0
DisjointOrSame nat ofs len m pos k = Disjoint nat ofs len m pos k ⊎ ((m ≡ nat) × (pos ≡ ofs))

-- `h'` differs from `h` at most in a region, and in no size.
pub record IsUpdate (h : Heap) (nat ofs len : ℕ) (h' : Heap) : Type 0 where
  pub frame : (m pos : ℕ) → Outside nat ofs len m pos → digit_val h' m pos ≡ digit_val h m pos
  pub sizes : (m : ℕ) → length (digits_of h' m) ≡ length (digits_of h m)
  pub count : length h' ≡ length h
  pub digits : IsHeap h'
