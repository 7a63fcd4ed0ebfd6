-- ===== src/Spawn/Child/Duplicates.antt =====
-- The temporary descriptors that the first loop of subprocess makes.
use ppx_universe.Base.{
  ℕ, zero, suc, ◌≤◌, ◌<◌, ◌≡◌, ◌≢◌, inl, inr, refl, sym, ap, ◌∙◌, arith, List, [], ◌∷◌, true, false,
  none, some, ◌==◌, Bool-cases, length, get_or, All,
}
use ppx_universe.Spawn.Table.{Entry, Table, inherited, copied, update_self, update_ne, mem}
use ppx_universe.Spawn.Child.Dup.{Copied}
use ppx_universe.Spawn.Child.Members.{mem-cons, mem-uncons, mem-tail, mem-suffix, All-at}

-- The descriptors ns are new ones, at least 3, and copies of fds in their order.
abbrev pub Duplicated : Table → List ℕ → List ℕ → Table → Type 0
Duplicated t [] [] t' = t' ≡ t
Duplicated t [] (n ∷ ns) t' = ⊥
Duplicated t (fd ∷ fds) [] t' = ⊥
Duplicated t (fd ∷ fds) (n ∷ ns) t' =
    (t1 : Table) × (3 ≤ n) × Copied t fd n t1 × Duplicated t1 fds ns t'

abbrev pub Distinct : List ℕ → Type 0
Distinct [] = Unit {0}
Distinct (n ∷ ns) = (mem n ns ≡ false) × Distinct ns

pub Copied-kept :
    (t t1 : Table) (fd n m : ℕ) (e : Entry)
    → Copied t fd n t1
    → t m ≡ some e
    → (m ≢ n) × (t1 m ≡ some e)
Copied-kept t t1 fd n m e (e', source, unused, result) h =
    let ne : m ≢ n = λ same. absurd (cc (ap t same, unused, h)) in
    (ne, ap (λ u. u m) result ∙ update_ne t n m (some (inherited e')) ne ∙ h)

pub Copied-other : (t t1 : Table) (fd n m : ℕ) → Copied t fd n t1 → m ≢ n → t1 m ≡ t m
Copied-other t t1 fd n m (e', source, unused, result) ne =
    ap (λ u. u m) result ∙ update_ne t n m (some (inherited e')) ne

-- What was open is no new descriptor.
pub Duplicated-used :
    (t : Table) (fds ns : List ℕ) (t' : Table) (m : ℕ) (e : Entry)
    → Duplicated t fds ns t'
    → t m ≡ some e
    → mem m ns ≡ false
Duplicated-used t [] [] t' m e h used = refl
Duplicated-used t [] (n ∷ ns) t' m e h used = absurd h
Duplicated-used t (fd ∷ fds) [] t' m e h used = absurd h
Duplicated-used t (fd ∷ fds) (n ∷ ns) t' m e (t1, low, copy, rest) used =
    let (ne, used') = Copied-kept t t1 fd n m e copy used in
    mem-cons m n ns ne (Duplicated-used t1 fds ns t' m e rest used')

pub Duplicated-other :
    (t : Table) (fds ns : List ℕ) (t' : Table) (m : ℕ)
    → Duplicated t fds ns t'
    → mem m ns ≡ false
    → t' m ≡ t m
Duplicated-other t [] [] t' m h out = ap (λ u. u m) h
Duplicated-other t [] (n ∷ ns) t' m h out = absurd h
Duplicated-other t (fd ∷ fds) [] t' m h out = absurd h
Duplicated-other t (fd ∷ fds) (n ∷ ns) t' m (t1, low, copy, rest) out =
    let (ne, out') = mem-uncons m n ns out in
    Duplicated-other t1 fds ns t' m rest out' ∙ Copied-other t t1 fd n m copy ne

pub Duplicated-new :
    (t : Table) (fds ns : List ℕ) (t' : Table) (m : ℕ)
    → Duplicated t fds ns t'
    → mem m ns ≡ true
    → (t m ≡ none) × (3 ≤ m)
Duplicated-new t [] [] t' m h found = absurd (cc found)
Duplicated-new t [] (n ∷ ns) t' m h found = absurd h
Duplicated-new t (fd ∷ fds) [] t' m h found = absurd h
Duplicated-new t (fd ∷ fds) (n ∷ ns) t' m (t1, low, (e, source, unused, result), rest) found =
    elim (Bool-cases (m == n)) [
      | inl same ↦ let same' : m ≡ n = ground arith in (ap t same' ∙ unused, omega arith)
      | inr other ↦
          let ne : m ≢ n = ground arith in
          let (fresh, big) = Duplicated-new t1 fds ns t' m rest (mem-tail m n ns found ne) in
          (sym (Copied-other t t1 fd n m (e, source, unused, result) ne) ∙ fresh, big)
    ]

pub Duplicated-Distinct :
    (t : Table) (fds ns : List ℕ) (t' : Table) → Duplicated t fds ns t' → Distinct ns
Duplicated-Distinct t [] [] t' h = tt
Duplicated-Distinct t [] (n ∷ ns) t' h = absurd h
Duplicated-Distinct t (fd ∷ fds) [] t' h = absurd h
Duplicated-Distinct t (fd ∷ fds) (n ∷ ns) t' (t1, low, (e, source, unused, result), rest) =
    let new : t1 n ≡ some (inherited e) =
      ap (λ u. u n) result ∙ update_self t n (some (inherited e)) in
    (Duplicated-used t1 fds ns t' n (inherited e) rest new, Duplicated-Distinct t1 fds ns t' rest)

pub Duplicated-length :
    (t : Table) (fds ns : List ℕ) (t' : Table) → Duplicated t fds ns t' → length ns ≡ length fds
Duplicated-length t [] [] t' h = refl
Duplicated-length t [] (n ∷ ns) t' h = absurd h
Duplicated-length t (fd ∷ fds) [] t' h = absurd h
Duplicated-length t (fd ∷ fds) (n ∷ ns) t' (t1, low, copy, rest) =
    ap suc (Duplicated-length t1 fds ns t' rest)

abbrev pub IsOpen : Table → ℕ → Type 0
IsOpen t fd = (e : Entry) × (t fd ≡ some e)

pub Copied-AllOpen :
    (t t1 : Table) (fd n : ℕ) (fds : List ℕ)
    → Copied t fd n t1
    → All (IsOpen t) fds
    → All (IsOpen t1) fds
Copied-AllOpen t t1 fd n [] copy h = tt
Copied-AllOpen t t1 fd n (m ∷ fds) copy ((e, used), h) =
    let (ne, used') = Copied-kept t t1 fd n m e copy used in
    ((e, used'), Copied-AllOpen t t1 fd n fds copy h)

-- Each new descriptor is a copy of the one at its place.
pub Duplicated-at :
    (t : Table) (fds ns : List ℕ) (t' : Table) (j : ℕ)
    → Duplicated t fds ns t'
    → All (IsOpen t) fds
    → j < length fds
    → (t' (get_or ns j 0) ≡ copied (t (get_or fds j 0))) × (mem (get_or ns j 0) ns ≡ true)
Duplicated-at t [] ns t' j h opened bound = absurd (omega arith)
Duplicated-at t (fd ∷ fds) [] t' j h opened bound = absurd h
Duplicated-at t (fd ∷ fds) (n ∷ ns) t' zero (t1, low, (e, source, unused, result), rest) opened
      bound =
    let new : t1 n ≡ some (inherited e) =
      ap (λ u. u n) result ∙ update_self t n (some (inherited e)) in
    let out = Duplicated-used t1 fds ns t' n (inherited e) rest new in
    let found : (n == n) ≡ true = ground arith in
    (Duplicated-other t1 fds ns t' n rest out ∙ new ∙ rw (ap copied source), rw found)
Duplicated-at t (fd ∷ fds) (n ∷ ns) t' (suc j) (t1, low, copy, rest) (one, opened) bound =
    let (same, found) =
      Duplicated-at t1 fds ns t' j rest (Copied-AllOpen t t1 fd n fds copy opened) (omega arith) in
    let (e, used) : IsOpen t (get_or fds j 0) = All-at (IsOpen t) fds j (omega arith) opened in
    let (ne, used') = Copied-kept t t1 fd n (get_or fds j 0) e copy used in
    (same ∙ ap copied (used' ∙ sym used), mem-suffix (get_or ns j 0) n ns found)

-- Each new descriptor is open at the end.
pub Duplicated-IsOpen :
    (t : Table) (fds ns : List ℕ) (t' : Table) (m : ℕ)
    → Duplicated t fds ns t'
    → mem m ns ≡ true
    → IsOpen t' m
Duplicated-IsOpen t [] [] t' m h found = absurd (cc found)
Duplicated-IsOpen t [] (n ∷ ns) t' m h found = absurd h
Duplicated-IsOpen t (fd ∷ fds) [] t' m h found = absurd h
Duplicated-IsOpen t (fd ∷ fds) (n ∷ ns) t' m (t1, low, (e, source, unused, result), rest) found =
    elim (Bool-cases (m == n)) [
      | inl same ↦
          let new : t1 n ≡ some (inherited e) =
            ap (λ u. u n) result ∙ update_self t n (some (inherited e)) in
          let out = Duplicated-used t1 fds ns t' n (inherited e) rest new in
          let at : m ≡ n = ground arith in
          (inherited e, ap t' at ∙ Duplicated-other t1 fds ns t' n rest out ∙ new)
      | inr other ↦ Duplicated-IsOpen t1 fds ns t' m rest (mem-tail m n ns found (ground arith))
    ]
