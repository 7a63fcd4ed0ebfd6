-- ===== src/Spawn/Child/Redirect.antt =====
-- What becomes of the temporary descriptors in the last two loops of subprocess.
use ppx_universe.Base.{
  ℕ, zero, suc, ◌+◌, ◌≤◌, ◌<◌, ◌≡◌, ◌≢◌, ◌⊎◌, inl, inr, refl, ap, ◌∙◌, arith, List, [], ◌∷◌, Bool,
  true, false, none, if◌then◌else◌, ◌==◌, Bool-cases, length, get_or,
}
use ppx_universe.Spawn.Table.{Table, update, copied, update_self, update_ne, close, mem}
use ppx_universe.Spawn.Child.{close_all}
use ppx_universe.Spawn.Child.Members.{mem-uncons, mem-suffix, mem-head, get_or-mem}
use ppx_universe.Spawn.Child.Duplicates.{Distinct}

pub close_all_lem :
    (fds : List ℕ) (t : Table) (n : ℕ) → close_all fds t n ≡ (if mem n fds then none else t n)
unfolding close_all close
close_all_lem [] t n = refl
close_all_lem (fd ∷ fds) t n = close_all_lem fds (close fd t) n ∙ go (n == fd) (mem n fds)
  where
    go :
        (b c : Bool)
        → (if c then none else if b then none else t n)
          ≡ (if if b then true else c then none else t n)
    go true true = refl
    go true false = refl
    go false c = refl

-- What the last loop does to the descriptors where no call fails.
abbrev pub moved : ℕ → List ℕ → Table → Table
moved fd [] t = t
moved fd (n ∷ ns) t = moved (suc fd) ns (update (update t fd (copied (t n))) n none)

abbrev pub AllTall : List ℕ → Type 0
AllTall ns = (m : ℕ) → mem m ns ≡ true → 3 ≤ m

pub AllTall-tail : (n : ℕ) (ns : List ℕ) → AllTall (n ∷ ns) → (3 ≤ n) × AllTall ns
AllTall-tail n ns tall =
    let s : (n == n) ≡ true = ground arith in (tall n (rw s), λ m h. tall m (mem-suffix m n ns h))

pub AllTall-below : (n m : ℕ) (ns : List ℕ) → AllTall ns → m < 3 → mem m ns ≡ false
AllTall-below n m ns tall h = elim (Bool-cases (mem m ns)) [
  | inl e ↦ absurd (omega (arith, tall m e))
  | inr e ↦ e
]

-- One round of the loop, from the descriptor n to fd, seen from a third descriptor.
abbrev pub step : ℕ → ℕ → Table → Table
step fd n t = update (update t fd (copied (t n))) n none

pub step-other : (fd n : ℕ) (t : Table) (i : ℕ) → i ≢ n → i ≢ fd → step fd n t i ≡ t i
step-other fd n t i a b =
    update_ne (update t fd (copied (t n))) n i none a ∙ update_ne t fd i (copied (t n)) b

pub moved-other :
    (fd : ℕ) (ns : List ℕ) (t : Table) (i : ℕ)
    → mem i ns ≡ false
    → (i < fd) ⊎ (fd + length ns ≤ i)
    → moved fd ns t i ≡ t i
moved-other fd [] t i out outside = refl
moved-other fd (n ∷ ns) t i out outside =
    let (ne, out') = mem-uncons i n ns out in
    elim outside [
      | inl h ↦
          moved-other (suc fd) ns (step fd n t) i out' (inl (omega arith))
          ∙ step-other fd n t i ne (ground arith)
      | inr h ↦
          moved-other (suc fd) ns (step fd n t) i out' (inr (omega arith))
          ∙ step-other fd n t i ne (ground arith)
    ]

pub moved-in :
    (fd : ℕ) (ns : List ℕ) (t : Table) (i : ℕ)
    → AllTall ns
    → fd + length ns ≤ 3
    → mem i ns ≡ true
    → moved fd ns t i ≡ none
moved-in fd [] t i tall bound found = absurd (cc found)
moved-in fd (n ∷ ns) t i tall bound found = elim (Bool-cases (mem i ns)) [
  | inl h ↦ moved-in (suc fd) ns (step fd n t) i (AllTall-tail n ns tall).1 (omega arith) h
  | inr h ↦
      let same : i ≡ n = mem-head i n ns found h in
      let low : 3 ≤ i = tall i found in
      moved-other (suc fd) ns (step fd n t) i h (inr (omega arith))
      ∙ ap (step fd n t) same
      ∙ update_self (update t fd (copied (t n))) n none
]

pub moved-at :
    (fd : ℕ) (ns : List ℕ) (t : Table) (j : ℕ)
    → Distinct ns
    → AllTall ns
    → fd + length ns ≤ 3
    → j < length ns
    → moved fd ns t (fd + j) ≡ copied (t (get_or ns j 0))
moved-at fd [] t j distinct tall bound h = absurd (omega arith)
moved-at fd (n ∷ ns) t zero (new, distinct) tall bound h =
    let (low, tall') = AllTall-tail n ns tall in
    let s : fd + 0 ≡ fd = omega arith in
    let ne : fd ≢ n = ground arith in
    rw s (
      moved-other (suc fd) ns (step fd n t) fd (AllTall-below n fd ns tall' (omega arith))
        (inl (omega arith))
      ∙ update_ne (update t fd (copied (t n))) n fd none ne
      ∙ update_self t fd (copied (t n)))
moved-at fd (n ∷ ns) t (suc j) (new, distinct) tall bound h =
    let (low, tall') = AllTall-tail n ns tall in
    let m = get_or ns j 0 in
    let found : mem m ns ≡ true = get_or-mem ns j (omega arith) in
    let big : 3 ≤ m = tall' m found in
    let ne : m ≢ n = λ same. absurd (cc (ap (λ x. mem x ns) same, found, new)) in
    let s : fd + suc j ≡ suc fd + j = omega arith in
    rw s (
      moved-at (suc fd) ns (step fd n t) j distinct tall' (omega arith) (omega arith)
      ∙ ap copied (step-other fd n t m ne (ground arith)))
