-- ===== src/Spawn/Child/Members.antt =====
-- Members of lists of descriptors.
use ppx_universe.Base.{
  ℕ, zero, suc, ◌<◌, ◌≡◌, ◌≢◌, inl, inr, refl, sym, arith, List, [], ◌∷◌, Bool, true, false,
  if◌then◌else◌, ◌==◌, Bool-cases, length, get_or, All,
}
use ppx_universe.Spawn.Table.{mem}

pub mem-cons : (m n : ℕ) (ns : List ℕ) → m ≢ n → mem m ns ≡ false → mem m (n ∷ ns) ≡ false
mem-cons m n ns ne h = let e : (m == n) ≡ false = ground arith in rw e h

pub mem-uncons : (m n : ℕ) (ns : List ℕ) → mem m (n ∷ ns) ≡ false → (m ≢ n) × (mem m ns ≡ false)
mem-uncons m n ns h = go (m == n) refl h
  where
    go :
        (b : Bool)
        → (m == n) ≡ b
        → (if b then true else mem m ns) ≡ false
        → (m ≢ n) × (mem m ns ≡ false)
    go true e h' = absurd (cc h')
    go false e h' = (ground arith, h')

pub mem-tail : (m n : ℕ) (ns : List ℕ) → mem m (n ∷ ns) ≡ true → m ≢ n → mem m ns ≡ true
mem-tail m n ns h ne = let e : (m == n) ≡ false = ground arith in rw (sym h, e)

pub mem-suffix : (m n : ℕ) (ns : List ℕ) → mem m ns ≡ true → mem m (n ∷ ns) ≡ true
mem-suffix m n ns h = go (m == n)
  where
    go : (b : Bool) → (if b then true else mem m ns) ≡ true
    go true = refl
    go false = h

pub mem-head : (m n : ℕ) (ns : List ℕ) → mem m (n ∷ ns) ≡ true → mem m ns ≡ false → m ≡ n
mem-head m n ns h out = go (m == n) refl h
  where
    go : (b : Bool) → (m == n) ≡ b → (if b then true else mem m ns) ≡ true → m ≡ n
    go true e h' = ground arith
    go false e h' = absurd (cc (h', out))

pub All-mem : (P : ℕ → Type 0) (fds : List ℕ) (n : ℕ) → mem n fds ≡ true → All P fds → P n
All-mem P [] n found all = absurd (cc found)
All-mem P (fd ∷ fds) n found (one, all) = elim (Bool-cases (n == fd)) [
  | inl e ↦ let same : n ≡ fd = ground arith in rw same one
  | inr e ↦ All-mem P fds n (mem-tail n fd fds found (ground arith)) all
]

pub All-at :
    (P : ℕ → Type 0) (fds : List ℕ) (j : ℕ) → j < length fds → All P fds → P (get_or fds j 0)
All-at P [] j h all = absurd (omega arith)
All-at P (fd ∷ fds) zero h (one, all) = one
All-at P (fd ∷ fds) (suc j) h (one, all) = All-at P fds j (omega arith) all

pub get_or-mem : (ns : List ℕ) (j : ℕ) → j < length ns → mem (get_or ns j 0) ns ≡ true
get_or-mem [] j h = absurd (omega arith)
get_or-mem (n ∷ ns) zero h = let s : (n == n) ≡ true = ground arith in rw s
get_or-mem (n ∷ ns) (suc j) h = mem-suffix (get_or ns j 0) n ns (get_or-mem ns j (omega arith))
