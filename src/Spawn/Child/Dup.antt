-- ===== src/Spawn/Child/Dup.antt =====
-- What safe_dup gives, and how much fuel is enough.
use ppx_universe.Base.{
  ℕ, zero, suc, ◌+◌, ◌≤◌, ◌<◌, ◌≡◌, ◌≢◌, inl, inr, refl, sym, ap, ◌∙◌, arith, false, Option, none,
  some, ◌==◌, leb, Bool-cases,
}
use mathlib.Core.Path.{fun_ext}
use ppx_universe.Spawn.Table.{
  Entry, Table, Kernel, IsPosix, Reply, ok, error, update, inherited, update_self, update_ne, close,
  dup, dup_from,
}
use ppx_universe.Spawn.Child.{
  Duped, duped, not_duped, out_of_fuel, close_after, dup_then, safe_dup, dup_rounds,
}

-- The open descriptors of a table have the same entries in the other.
abbrev pub Keeps : Table → Table → Type 0
Keeps t t' = (n : ℕ) (e : Entry) → t n ≡ some e → t' n ≡ some e

-- The table holds one more descriptor, a copy of fd.
abbrev pub Copied : Table → ℕ → ℕ → Table → Type 0
Copied t fd n t' =
    (e : Entry) × (t fd ≡ some e) × (t n ≡ none) × (t' ≡ update t n (some (inherited e)))

abbrev IsCopied : Table → ℕ → Reply (ℕ × Table) → Type 0
IsCopied t fd (ok (n, t')) = Copied t fd n t'
IsCopied t fd (error e) = Unit {0}

-- A descriptor of at least 3; or an error, which dup gives in the table that is left, where all that
-- was open is; the recursion ends.
abbrev pub IsSafelyDuped : Kernel → Table → ℕ → Duped → Type 0
IsSafelyDuped k t fd (duped n t') = (3 ≤ n) × Copied t fd n t'
IsSafelyDuped k t fd (not_duped e t') = Keeps t t' × (dup k fd t' ≡ error e)
IsSafelyDuped k t fd out_of_fuel = ⊥

dup_from-IsCopied :
    (k : Kernel) (fd : ℕ) (t : Table) (entry : Option Entry) (answer : Option ℕ)
    → t fd ≡ entry
    → ((n : ℕ) → answer ≡ some n → t n ≡ none)
    → IsCopied t fd (dup_from k t entry answer)
unfolding dup_from
dup_from-IsCopied k fd t none answer h unused = tt
dup_from-IsCopied k fd t (some e) none h unused = tt
dup_from-IsCopied k fd t (some e) (some n) h unused = (e, h, unused n refl, refl)

dup-IsCopied : (k : Kernel) (fd : ℕ) (t : Table) → IsPosix k → IsCopied t fd (dup k fd t)
unfolding dup
dup-IsCopied k fd t posix = dup_from-IsCopied k fd t (t fd) (k.dup_fd t) refl (posix.unused t)

abbrev free : Option Entry → ℕ
free none = 1
free (some e) = 0

-- How many of the descriptors below 3 are free.
abbrev pub free_low : Table → ℕ
free_low t = free (t 0) + free (t 1) + free (t 2)

free_bound : (entry : Option Entry) → free entry ≤ 1
free_bound none = omega arith
free_bound (some e) = omega arith

free_low-update :
    (t : Table) (n : ℕ) (e : Entry)
    → n < 3
    → t n ≡ none
    → free_low (update t n (some e)) < free_low t
free_low-update t zero e h unused = rw unused (omega arith)
free_low-update t (suc zero) e h unused = rw unused (omega arith)
free_low-update t (suc (suc zero)) e h unused = rw unused (omega arith)
free_low-update t (suc (suc (suc n))) e h unused = absurd (omega arith)

update-Keeps : (t : Table) (n : ℕ) (e : Option Entry) → t n ≡ none → Keeps t (update t n e)
update-Keeps t n e unused m entry used =
    update_ne t n m e (λ same. absurd (cc (ap t same, unused, used))) ∙ used

-- The lower descriptor is closed again.
close-update :
    (t : Table) (n m : ℕ) (e e' : Option Entry)
    → t n ≡ none
    → m ≢ n
    → close n (update (update t n e) m e') ≡ update t m e'
unfolding close
close-update t n m e e' unused ne = fun_ext λ i. elim (Bool-cases (i == n)) [
  | inl h ↦
      let h' : (i == m) ≡ false = ground arith in
      let same : t i ≡ none = ap t (ground arith) ∙ unused in rw (h, h', same)
  | inr h ↦ rw h
]

close_after-IsSafelyDuped :
    (k : Kernel) (t : Table) (fd n : ℕ) (entry : Entry) (d : Duped)
    → t fd ≡ some entry
    → t n ≡ none
    → IsSafelyDuped k (update t n (some (inherited entry))) fd d
    → IsSafelyDuped k t fd (close_after n d)
close_after-IsSafelyDuped k t fd n entry out_of_fuel h unused d = d
close_after-IsSafelyDuped k t fd n entry (not_duped e t') h unused (kept, failed) =
    (λ m e' used. kept m e' (update-Keeps t n (some (inherited entry)) unused m e' used), failed)
close_after-IsSafelyDuped k t fd n entry (duped m t') h unused (low, (e, source, fresh, result)) =
    let ne : m ≢ n = λ same. absurd (
      cc (
        ap (update t n (some (inherited entry))) same,
        fresh,
        update_self t n (some (inherited entry)),
      )) in
    let kept : update t n (some (inherited entry)) fd ≡ some entry =
      update-Keeps t n (some (inherited entry)) unused fd entry h in
    (
      low,
      (
        e,
        cc (h, kept, source),
        sym (update_ne t n m (some (inherited entry)) ne) ∙ fresh,
        ap (close n) result
            ∙ close-update t n m (some (inherited entry)) (some (inherited e)) unused ne,
      ),
    )

dup_then-IsSafelyDuped :
    (k : Kernel) (t : Table) (fd : ℕ) (again : Table → Duped) (r : Reply (ℕ × Table))
    → dup k fd t ≡ r
    → IsCopied t fd r
    → ((n : ℕ) (e : Entry)
        → n < 3
        → t n ≡ none
        → IsSafelyDuped k (update t n (some e)) fd (again (update t n (some e))))
    → IsSafelyDuped k t fd (dup_then t again r)
dup_then-IsSafelyDuped k t fd again (error e) same h rest = (λ m e' used. used, same)
dup_then-IsSafelyDuped k t fd again (ok (n, t')) same (e, source, unused, result) rest =
    elim (Bool-cases (leb 3 n)) [
      | inl low ↦ rw low (ground arith, (e, source, unused, result))
      | inr low ↦
          rw (low, result)
            (close_after-IsSafelyDuped k t fd n e (again (update t n (some (inherited e)))) source
              unused (rest n (inherited e) (ground arith) unused))
    ]

-- One round of fuel more than there are free descriptors below 3 is enough.
pub safe_dup-IsSafelyDuped :
    (fuel : ℕ) (k : Kernel) (fd : ℕ) (t : Table)
    → IsPosix k
    → free_low t < fuel
    → IsSafelyDuped k t fd (safe_dup fuel k fd t)
unfolding safe_dup
safe_dup-IsSafelyDuped zero k fd t posix h = absurd (omega arith)
safe_dup-IsSafelyDuped (suc fuel) k fd t posix h =
    dup_then-IsSafelyDuped k t fd (safe_dup fuel k fd) (dup k fd t) refl (dup-IsCopied k fd t posix)
      (λ n e low unused.
        let fewer = free_low-update t n e low unused in
        safe_dup-IsSafelyDuped fuel k fd (update t n (some e)) posix (omega arith))

-- Over a kernel whose dup gives unused descriptors, safe_dup ends within four calls: with a new
-- descriptor, at least 3, that is a copy of the one given, and no other descriptor changed, or
-- with the error that dup gives for the descriptor in the descriptors left, where all that was
-- open still is.
pub safe_dup_lem :
    (k : Kernel) (fd : ℕ) (t : Table)
    → IsPosix k
    → IsSafelyDuped k t fd (safe_dup dup_rounds k fd t)
safe_dup_lem k fd t posix =
    let a = free_bound (t 0) in
    let b = free_bound (t 1) in
    let c = free_bound (t 2) in safe_dup-IsSafelyDuped dup_rounds k fd t posix (omega arith)
