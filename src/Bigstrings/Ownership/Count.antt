-- ===== src/Bigstrings/Ownership/Count.antt =====
-- How often an address is allocated, and how many bigarrays own it.
use ppx_universe.Base.{
  ℕ, zero, suc, ◌+◌, ◌≤◌, ◌<◌, ◌≡◌, inl, inr, refl, ap, ◌∙◌, List, [], ◌∷◌, ◌++◌, Bool, true, false,
  Option, none, some, if◌then◌else◌, ◌==◌, set, get_or, length, arith, Bool-cases,
}
use ppx_universe.Bigstrings.Ownership.{
  Managed, external, managed, mapped_file, BaArray, remove, free, reset, no_array,
}

abbrev pub bit : Bool → ℕ
bit true = 1
bit false = 0

abbrev pub count : ℕ → List ℕ → ℕ
count p [] = 0
count p (q ∷ qs) = bit (p == q) + count p qs

-- 1 where a pointer is the address `p`.
abbrev pub held : ℕ → Option ℕ → ℕ
held p none = 0
held p (some q) = bit (p == q)

-- The same, but 0 for memory of another kind.
abbrev pub owns_ptr : Managed → Managed → ℕ → Option ℕ → ℕ
owns_ptr managed managed p ptr = held p ptr
owns_ptr mapped_file mapped_file p ptr = held p ptr
owns_ptr k flags p ptr = 0

-- Whether a bigarray owns the address itself.
abbrev pub owns : Managed → ℕ → BaArray → ℕ
owns k p a = if a.proxy then 0 else owns_ptr k a.flags p a.data_ptr

abbrev pub owned : Managed → ℕ → List BaArray → ℕ
owned k p [] = 0
owned k p (a ∷ bs) = owns k p a + owned k p bs

pub owned-set :
    (k : Managed) (p : ℕ) (bs : List BaArray) (i : ℕ) (b : BaArray)
    → i < length bs
    → owned k p (set bs i b) + owns k p (get_or bs i no_array) ≡ owned k p bs + owns k p b
owned-set k p [] i b h = absurd (omega arith)
owned-set k p (a ∷ bs) zero b h = omega arith
owned-set k p (a ∷ bs) (suc i) b h = omega (arith, owned-set k p bs i b (omega arith))

pub owned-append :
    (k : Managed) (p : ℕ) (bs : List BaArray) (b : BaArray)
    → owned k p (bs ++ b ∷ []) ≡ owned k p bs + owns k p b
owned-append k p [] b = omega arith
owned-append k p (a ∷ bs) b = omega (arith, owned-append k p bs b)

pub owns-get_or :
    (k : Managed) (p : ℕ) (bs : List BaArray) (i : ℕ)
    → owns k p (get_or bs i no_array) ≤ owned k p bs
owns-get_or external p [] i = omega arith
owns-get_or managed p [] i = omega arith
owns-get_or mapped_file p [] i = omega arith
owns-get_or k p (a ∷ bs) zero = omega arith
owns-get_or k p (a ∷ bs) (suc i) = omega (arith, owns-get_or k p bs i)

-- An address that is allocated can be removed, once.
pub remove_lem :
    (p : ℕ) (qs : List ℕ)
    → 0 < count p qs
    → (rest : List ℕ) × (remove p qs ≡ some rest)
      × ((q : ℕ) → count q qs ≡ bit (q == p) + count q rest)
unfolding remove
remove_lem p [] h = absurd (omega arith)
remove_lem p (q ∷ qs) h = elim (Bool-cases (p == q)) [
  | inl e ↦ let same : p ≡ q = ground arith in rw e (qs, refl, λ r. rw same refl)
  | inr e ↦
      let (rest, found, counts) = remove_lem p qs (ground arith) in
      rw (e, found) (q ∷ rest, refl, λ r. omega (arith, counts r))
]

-- A pointer to something allocated can be freed.
pub free_lem :
    (ptr : Option ℕ) (l : List ℕ)
    → ((p : ℕ) → held p ptr ≤ count p l)
    → (rest : List ℕ) × (free ptr l ≡ some rest) × ((p : ℕ) → count p l ≡ held p ptr + count p rest)
unfolding free
free_lem none l h = (l, refl, λ p. omega arith)
free_lem (some q) l h =
    let self : (q == q) ≡ true = ground arith in
    let there : bit (q == q) ≤ count q l = h q in remove_lem q l (omega (arith, there, ap bit self))

-- An address that was free is allocated once.
pub count-fresh :
    (p : ℕ) (l : List ℕ)
    → ((q : ℕ) → count q l ≤ 1)
    → count p l ≡ 0
    → (q : ℕ) → bit (q == p) + count q l ≤ 1
count-fresh p l once fresh q = elim (Bool-cases (q == p)) [
  | inl e ↦
      let same : q ≡ p = ground arith in
      let none_there : count q l ≡ 0 = ap (λ (k : ℕ). count k l) same ∙ fresh in
      rw e (omega (arith, none_there))
  | inr e ↦ rw e (omega (arith, once q))
]

pub owns-reset : (k : Managed) (p : ℕ) (a : BaArray) → owns k p (reset a) ≡ 0
unfolding reset
owns-reset external p a = elim (Bool-cases a.proxy) [ inl e ↦ rw e refl | inr e ↦ rw e refl ]
owns-reset managed p a = elim (Bool-cases a.proxy) [ inl e ↦ rw e refl | inr e ↦ rw e refl ]
owns-reset mapped_file p a = elim (Bool-cases a.proxy) [ inl e ↦ rw e refl | inr e ↦ rw e refl ]

pub get_or-append :
    (bs cs : List BaArray) (i : ℕ)
    → i < length bs
    → get_or (bs ++ cs) i no_array ≡ get_or bs i no_array
get_or-append [] cs i h = absurd (omega arith)
get_or-append (a ∷ bs) cs zero h = refl
get_or-append (a ∷ bs) cs (suc i) h = get_or-append bs cs i (omega arith)
